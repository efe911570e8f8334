-- ===== src/Db/Renumber/References.antt =====
-- src/meshprovision/db/renumber.py: renamed references, and what the checks of a new id leave free.
use native.Mathlib.Omega.{arith}
use meshprovision.Common.{
  ℕ, ◌≡◌, refl, ◌∙◌, ap, sym, Bool, true, false, Option, none, some, List, [], ◌∷◌, length,
  is_empty, keep, Bool-cases, inl, inr, ok, ◌==◌ as nat_eq,
}
use meshprovision.Common.Text.{Text, text_eq, text_eq_iff}
use meshprovision.Common.Equality.{Text_eq, mem}
use meshprovision.NodeId.{NodeId, hex, IsValid, from_hex}
use meshprovision.NodeId.Printing.{length-hex}
use meshprovision.NodeId.Parsing.{round_trip}
use meshprovision.Plan.AdminKeys.{texts_eq}
use meshprovision.Db.{
  KeyType, admin_public, admin_private, channel_psk, NodeRecord, ref_for, touched,
}
use meshprovision.Db.Table.{find}
use meshprovision.Db.Renumber.{
  Database, node_key, key_key, key_types, rename, renamed, check_new_id, own_refs, is_some,
}
use meshprovision.Db.Renumber.Keys.{new_apart}
use meshprovision.Db.Renumber.Nodes.{renamed_row, texts_eq_iff}

texts_eq_self : (xs : List Text) → texts_eq xs xs ≡ true
unfolding texts_eq
texts_eq_self [] = refl
texts_eq_self (x ∷ xs) = ground (arith, text_eq_iff x x, texts_eq_self xs)

-- Two valid ids with different numbers have different hex forms.
pub hex_apart :
    (old new : NodeId)
    → IsValid old
    → IsValid new
    → nat_eq new.num old.num ≡ false
    → text_eq (hex old) (hex new) ≡ false
hex_apart old new vo vn differ = elim (Bool-cases (text_eq (hex old) (hex new))) [
  | inr apart ↦ apart
  | inl same ↦
      let texts : hex old ≡ hex new = (text_eq_iff (hex old) (hex new)).0 same in
      let parsed : ok old ≡ ok new =
        sym ((round_trip old vo).0) ∙ ap from_hex texts ∙ (round_trip new vn).0 in
      absurd (ground (arith, parsed))
]

pub hex_same_length :
    (old new : NodeId) → IsValid old → IsValid new → length (hex old) ≡ length (hex new)
hex_same_length old new vo vn = length-hex old vo ∙ sym (length-hex new vn)

by_type :
    (P : KeyType → Type 0) → P admin_public → P admin_private → P channel_psk → (b : KeyType) → P b
by_type P p q r admin_public = p
by_type P p q r admin_private = q
by_type P p q r channel_psk = r

module _ (old new : Text) (same_length : length old ≡ length new)
    (apart : text_eq old new ≡ false) where
  new_old : (a b : KeyType) → text_eq (ref_for new a) (ref_for old b) ≡ false
  new_old = new_apart (λ n. []) old new same_length apart

  old_new : (b a : KeyType) → text_eq (ref_for old b) (ref_for new a) ≡ false
  old_new b a = ground (
    arith,
    new_old a b,
    text_eq_iff (ref_for old b) (ref_for new a),
    text_eq_iff (ref_for new a) (ref_for old b),
  )

  rename-apart :
      (b : KeyType) (ref : Text) → text_eq (ref_for old b) (rename old new key_types ref) ≡ false
  unfolding rename
  rename-apart b ref = elim (Bool-cases (text_eq (ref_for old admin_public) ref)) [
    | inl e ↦ rw e (old_new b admin_public)
    | inr n ↦ elim (Bool-cases (text_eq (ref_for old admin_private) ref)) [
      | inl e ↦ rw (n, e) (old_new b admin_private)
      | inr m ↦ elim (Bool-cases (text_eq (ref_for old channel_psk) ref)) [
        | inl e ↦ rw (n, m, e) (old_new b channel_psk)
        | inr l ↦ rw (n, m, l) (by_type (λ b. text_eq (ref_for old b) ref ≡ false) n m l b)
      ]
    ]
  ]

  pub renamed-apart :
      (b : KeyType) (refs : List Text) → mem (ref_for old b) (renamed old new refs) ≡ false
  unfolding renamed
  renamed-apart b [] = refl
  renamed-apart b (ref ∷ refs) = rw (rename-apart b ref) (renamed-apart b refs)

  rename_fixed :
      (ref : Text)
      → ((b : KeyType) → text_eq (ref_for old b) ref ≡ false)
      → rename old new key_types ref ≡ ref
  unfolding rename
  rename_fixed ref h = rw (h admin_public, h admin_private, h channel_psk) refl

  renamed_fixed :
      (refs : List Text)
      → ((b : KeyType) → mem (ref_for old b) refs ≡ false)
      → renamed old new refs ≡ refs
  unfolding renamed
  renamed_fixed [] h = refl
  renamed_fixed (ref ∷ refs) h =
      cc
        (rename_fixed ref (λ b. ground (arith, h b)), renamed_fixed refs (λ b. ground (arith, h b)))

  pub renamed_row_fixed :
      (now : ℕ) (row : NodeRecord)
      → ((b : KeyType) → mem (ref_for old b) row.authorized_admin_keys ≡ false)
      → renamed_row now old new row ≡ row
  renamed_row_fixed now row h =
      rw (renamed_fixed row.authorized_admin_keys h, texts_eq_self row.authorized_admin_keys) refl

  pub renamed_row-refs :
      (now : ℕ) (row : NodeRecord)
      → (renamed_row now old new row).authorized_admin_keys
        ≡ renamed old new row.authorized_admin_keys
  unfolding touched
  renamed_row-refs now row =
      let refs = renamed old new row.authorized_admin_keys in
      elim (Bool-cases (texts_eq refs row.authorized_admin_keys)) [
        | inl same ↦ rw same (sym (texts_eq_iff refs row.authorized_admin_keys same))
        | inr changed ↦ rw changed refl
      ]

keep_none :
    (p : Text → Bool) (a b c : Text)
    → is_empty (keep p (a ∷ b ∷ c ∷ [])) ≡ true
    → (p a ≡ false) × (p b ≡ false) × (p c ≡ false)
keep_none p a b c h = ground arith

no_row : {A : Type 0} (x : Option A) → is_some x ≡ false → x ≡ none
no_row none h = refl
no_row (some a) h = cc

-- What the check of a new id leaves: another number, and no row and no key under the new id.
pub check_new_id-free :
    (db : Database) (old new : NodeId)
    → check_new_id db old new ≡ ok tt
    → (nat_eq new.num old.num ≡ false)
      × (find node_key (hex new) db.nodes ≡ none)
      × ((b : KeyType) → find key_key (ref_for (hex new) b) db.keys ≡ none)
unfolding check_new_id own_refs
check_new_id-free db old new h =
    let none_stray =
      keep_none (λ ref. is_some (find key_key ref db.keys)) (ref_for (hex new) admin_public)
        (ref_for (hex new) admin_private) (ref_for (hex new) channel_psk) (ground arith) in
    (
      ground arith,
      no_row (find node_key (hex new) db.nodes) (ground arith),
      by_type (λ b. find key_key (ref_for (hex new) b) db.keys ≡ none)
          (no_row (find key_key (ref_for (hex new) admin_public) db.keys) none_stray.0)
          (no_row (find key_key (ref_for (hex new) admin_private) db.keys) none_stray.1)
          (no_row (find key_key (ref_for (hex new) channel_psk) db.keys) none_stray.2),
    )
