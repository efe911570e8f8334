-- ===== src/Db/Renumber/Proof.antt =====
-- src/meshprovision/db/renumber.py, `check_renumber` and `_check_proof`: which moves are let through.
use native.Mathlib.Omega.{arith}
use meshprovision.Common.{
  ℕ, ◌≡◌, refl, ◌∙◌, ap, sym, Bool, true, false, not, Option, none, some, List, [], ◌∷◌,
  if◌then◌else◌, Bool-cases, Option-cases, ◌⊎◌, inl, inr, Result, ok, err, ◌>>=◌, ◌>>◌,
  ◌==◌ as nat_eq, ==_iff, >>=-eq_ok, is_empty,
}
use meshprovision.NodeId.{NodeId, hex, key_derived_id}
use meshprovision.Db.{admin_public, KeyRecord, NodeRecord, ref_for, is_archived}
use meshprovision.Db.Table.{find}
use meshprovision.Db.Renumber.{
  Database, RenumberError, archived, pending_exists, shared_key, not_derived, node_key, key_key,
  sharing, derives, check_stored, check_proof, check_new_id, check_renumber, get_node,
}

Result-cases : {E A : Type 0} (r : Result E A) → ((a : A) × (r ≡ ok a)) ⊎ ((e : E) × (r ≡ err e))
Result-cases (ok a) = inl ((a, refl))
Result-cases (err e) = inr ((e, refl))

node_eq : (m n : NodeId) → m.num ≡ n.num → m ≡ n
node_eq m n h = cc

ok_true : {b : Bool} → Path (Result RenumberError Bool) (ok b) (ok true) → b ≡ true
ok_true h = cc

get_node-row :
    (old : NodeId) (row : NodeRecord) (rows : List NodeRecord)
    → get_node old rows ≡ ok row
    → find node_key (hex old) rows ≡ some row
unfolding get_node
get_node-row old row rows h = elim (Option-cases (find node_key (hex old) rows)) [
  | inl absent ↦ absurd (ground (arith, absent))
  | inr (r, e) ↦ e ∙ ground (arith, e)
]

accepted :
    (is_old : Bool) (fresh : Result RenumberError (Unit {0})) (has_pending force : Bool)
    (proof : Result RenumberError (Unit {0}))
    → ((if is_old then err archived else ok tt)
        >> (fresh
            >> ((if has_pending then err pending_exists else ok tt)
                >> (if force then ok tt else proof))))
      ≡ ok tt
    → (is_old ≡ false)
      × (fresh ≡ ok tt)
      × (has_pending ≡ false)
      × ((force ≡ true) ⊎ (proof ≡ ok tt))
accepted true fresh has_pending force proof h = cc
accepted false (err e) has_pending force proof h = cc
accepted false (ok tt) true force proof h = cc
accepted false (ok tt) false true proof h = (refl, refl, refl, inl refl)
accepted false (ok tt) false false proof h = (refl, refl, refl, inr h)

stored_ok :
    (shared : List (List ℕ)) (derived : Result RenumberError Bool)
    → (if not (is_empty shared)
        then err (shared_key shared)
        else derived >>= λ same. if same then ok tt else err not_derived)
      ≡ ok (tt {0})
    → (is_empty shared ≡ true) × (derived ≡ ok true)
stored_ok (owner ∷ shared) derived h = cc
stored_ok [] (err e) h = cc
stored_ok [] (ok false) h = cc
stored_ok [] (ok true) h = (refl, refl)

module _ (crc32 : List ℕ → ℕ) (material : KeyRecord → List ℕ) where
  -- The firmware derives this id from this key.
  abbrev pub DerivedFrom : List ℕ → NodeId → Type 0
  DerivedFrom key node = key_derived_id crc32 key ≡ ok node

  -- The id derives from the key of a pending custody entry, or from the public key recorded for the old
  -- id, which no other row that a node owns holds.
  abbrev pub Proven : Database → NodeId → NodeId → Option (List ℕ) → Type 0
  Proven db old new pending =
      ((key : List ℕ) × (pending ≡ some key) × DerivedFrom key new)
      ⊎ ((stored : KeyRecord) × (find key_key (ref_for (hex old) admin_public) db.keys
            ≡ some stored)
          × (is_empty (sharing crc32 material db.keys old (material stored)) ≡ true)
          × DerivedFrom (material stored) new)

  derives-DerivedFrom :
      (key : List ℕ) (new : NodeId) → derives crc32 material key new ≡ ok true → DerivedFrom key new
  unfolding derives
  derives-DerivedFrom key new h = elim (Result-cases (key_derived_id crc32 key)) [
    | inl (derived, e) ↦
        let same : nat_eq derived.num new.num ≡ true = ok_true (sym (rw (e, derives) refl) ∙ h) in
        e ∙ ap ok (node_eq derived new ((==_iff derived.num new.num).0 same))
    | inr (error, e) ↦ cc
  ]

  check_stored-Proven :
      (db : Database) (old new : NodeId) (pending : Option (List ℕ))
      → check_stored crc32 material db old new ≡ ok tt
      → Proven db old new pending
  unfolding check_stored
  check_stored-Proven db old new pending h =
      elim (Option-cases (find key_key (ref_for (hex old) admin_public) db.keys)) [
        | inl absent ↦ absurd (ground (arith, absent))
        | inr (stored, e) ↦
            let both =
              stored_ok (sharing crc32 material db.keys old (material stored))
                (derives crc32 material (material stored) new)
                (sym (rw (e, check_stored) refl) ∙ h) in
            inr ((stored, e, both.0, derives-DerivedFrom (material stored) new both.1))
      ]

  check_proof-Proven :
      (db : Database) (old new : NodeId) (pending : Option (List ℕ))
      → check_proof crc32 material db old new pending ≡ ok tt
      → Proven db old new pending
  unfolding check_proof
  check_proof-Proven db old new none h = check_stored-Proven db old new none h
  check_proof-Proven db old new (some key) h =
      let split = >>=-eq_ok (derives crc32 material key new) _ h in
      elim (Bool-cases split.0) [
        | inl same ↦ inl ((key, refl, derives-DerivedFrom key new (split.1 ∙ ap ok same)))
        | inr differ ↦
            check_stored-Proven db old new (some key) (sym (rw (split.1, differ) refl) ∙ h)
      ]

  -- A move that is let through has a row that is not archived and a new id that is free, without a
  -- pending entry; unless it was forced, the new id is proven to be the node's.
  pub check_renumber-ok :
      (db : Database) (old new : NodeId) (pending : Option (List ℕ)) (new_has_pending force : Bool)
      → check_renumber crc32 material db old new pending new_has_pending force ≡ ok tt
      → (row : NodeRecord) × (find node_key (hex old) db.nodes ≡ some row)
        × (is_archived row ≡ false)
        × (check_new_id db old new ≡ ok tt)
        × (new_has_pending ≡ false)
        × ((force ≡ true) ⊎ Proven db old new pending)
  unfolding check_renumber get_node
  check_renumber-ok db old new pending new_has_pending force h =
      let row = >>=-eq_ok (get_node old db.nodes) _ h in
      let rest =
        accepted (is_archived row.0) (check_new_id db old new) new_has_pending force
          (check_proof crc32 material db old new pending) row.2 in
      (
        row.0,
        get_node-row old row.0 db.nodes row.1,
        rest.0,
        rest.1,
        rest.2,
        elim rest.3 [
          | inl forced ↦ inl forced
          | inr q ↦ inr (check_proof-Proven db old new pending q)
        ],
      )
