-- ===== src/Db/Renumber/Keys.antt =====
-- src/meshprovision/db/renumber.py, `_move_keys`: the Keys sheet as a map, before and after.
use native.Mathlib.Omega.{arith}
use meshprovision.Common.{
  ℕ, ◌≡◌, refl, ◌∙◌, ap, sym, Bool, true, false, ◌&&◌, Option, none, some, List, [], ◌∷◌, length,
  if◌then◌else◌, Option-cases, inl, inr,
}
use meshprovision.Common.Text.{Text, text_eq, text_eq_iff}
use meshprovision.Common.Equality.{Text_eq}
use meshprovision.Db.{KeyType, admin_public, admin_private, channel_psk, KeyRecord, ref_for}
use meshprovision.Db.Sorting.{key_le}
use meshprovision.Db.Table.{find, delete}
use meshprovision.Db.Table.Laws.{IsTable, upsert-refines, delete-refines}
use meshprovision.Db.Renumber.{key_key, key_types, refiled, move_key, move_keys}

abbrev pub type_eq : KeyType → KeyType → Bool
type_eq admin_public admin_public = true
type_eq admin_private admin_private = true
type_eq channel_psk channel_psk = true
type_eq _ _ = false

-- References of owners of one length are equal only for the same owner and type.
pub ref_for-eq :
    (o n : Text) (a b : KeyType)
    → length o ≡ length n
    → text_eq (ref_for o a) (ref_for n b) ≡ (text_eq o n && type_eq a b)
unfolding ref_for
ref_for-eq [] [] admin_public admin_public h = refl
ref_for-eq [] [] admin_public admin_private h = refl
ref_for-eq [] [] admin_public channel_psk h = refl
ref_for-eq [] [] admin_private admin_public h = refl
ref_for-eq [] [] admin_private admin_private h = refl
ref_for-eq [] [] admin_private channel_psk h = refl
ref_for-eq [] [] channel_psk admin_public h = refl
ref_for-eq [] [] channel_psk admin_private h = refl
ref_for-eq [] [] channel_psk channel_psk h = refl
ref_for-eq [] (y ∷ n) a b h = absurd (omega arith)
ref_for-eq (x ∷ o) [] a b h = absurd (omega arith)
ref_for-eq (x ∷ o) (y ∷ n) a b h = ground (arith, ref_for-eq o n a b)

find-key :
    (k : Text) (rows : List KeyRecord) (r : KeyRecord)
    → find key_key k rows ≡ some r
    → r.key_ref ≡ k
unfolding find
find-key k [] r h = cc
find-key k (x ∷ rows) r h = ground (arith, find-key k rows r, text_eq_iff x.key_ref k)

-- `Option.map (refiled …)`
abbrev pub refile : Text → KeyType → Option KeyRecord → Option KeyRecord
refile owner key_type none = none
refile owner key_type (some row) = some (refiled owner key_type row)

module _ (fold : ℕ → Text) (old new : Text) where
  -- What one key type's move does to the map, at a key that led to `was`.
  moved : KeyType → Text → Option KeyRecord → Option KeyRecord → Option KeyRecord
  moved key_type k was none = was
  moved key_type k was (some row) =
      if text_eq (ref_for new key_type) k
      then some (refiled new key_type row)
      else if text_eq k (ref_for old key_type)
      then none
      else was

  move_key-lem :
      (key_type : KeyType) (rows : List KeyRecord)
      → IsTable key_key rows
      → IsTable key_key (move_key fold old new key_type rows)
        × ((k : Text)
            → find key_key k (move_key fold old new key_type rows)
              ≡ moved key_type k (find key_key k rows) (find key_key (ref_for old key_type) rows))
  unfolding move_key moved
  move_key-lem key_type rows h = elim (Option-cases (find key_key (ref_for old key_type) rows)) [
    | inl no_row ↦ rw (no_row, move_key) ((h, λ k. refl))
    | inr (row, e) ↦
        let at = find-key (ref_for old key_type) rows row e in
        let fewer = delete-refines key_key (key_le fold) rows h row.key_ref in
        let after =
          upsert-refines key_key (key_le fold) (delete key_key (key_le fold) row.key_ref rows).1
            fewer.0 (refiled new key_type row) in
        rw (e, move_key)
          ((after.0, λ k. after.1 k ∙ unfold refiled in ground (arith, fewer.1 k, at)))
  ]

  module _ (same_length : length old ≡ length new) (apart : text_eq old new ≡ false) where
    pub new_apart : (a b : KeyType) → text_eq (ref_for new a) (ref_for old b) ≡ false
    new_apart a b =
        ref_for-eq new old a b (sym same_length)
        ∙ ground (arith, apart, text_eq_iff old new, text_eq_iff new old)

    same_owner : (o : Text) (a b : KeyType) → text_eq (ref_for o a) (ref_for o b) ≡ type_eq a b
    same_owner o a b = ref_for-eq o o a b refl ∙ ground (arith, text_eq_iff o o)

    type_refl : (a : KeyType) → type_eq a a ≡ true
    type_refl admin_public = refl
    type_refl admin_private = refl
    type_refl channel_psk = refl

    module _ (a : KeyType) (rows : List KeyRecord) (h : IsTable key_key rows) where
      abbrev after : List KeyRecord
      after = move_key fold old new a rows

      after-lem :
          (k : Text)
          → find key_key k after
            ≡ moved a k (find key_key k rows) (find key_key (ref_for old a) rows)
      after-lem k = (move_key-lem a rows h).1 k

      -- The row of the moved type is under the new owner, if there was one.
      move_key-new :
          find key_key (ref_for new a) rows ≡ none
          → find key_key (ref_for new a) after ≡ refile new a (find key_key (ref_for old a) rows)
      unfolding moved
      move_key-new free =
          after-lem (ref_for new a) ∙ elim (Option-cases (find key_key (ref_for old a) rows)) [
            | inl none_old ↦ rw (none_old, free) refl
            | inr (row, e) ↦ rw (e, same_owner new a a, type_refl a) refl
          ]

      move_key-old : find key_key (ref_for old a) after ≡ none
      unfolding moved
      move_key-old =
          after-lem (ref_for old a) ∙ elim (Option-cases (find key_key (ref_for old a) rows)) [
            | inl none_old ↦ rw none_old refl
            | inr (row, e) ↦ rw (e, new_apart a a, same_owner old a a, type_refl a) refl
          ]

      -- A key that is neither of the two references leads where it did.
      move_key-other :
          (k : Text)
          → text_eq (ref_for new a) k ≡ false
          → text_eq k (ref_for old a) ≡ false
          → find key_key k after ≡ find key_key k rows
      unfolding moved
      move_key-other k not_new not_old =
          after-lem k ∙ elim (Option-cases (find key_key (ref_for old a) rows)) [
            | inl none_old ↦ rw none_old refl
            | inr (row, e) ↦ rw (e, not_new, not_old) refl
          ]

    other_new :
        (a b : KeyType) (rows : List KeyRecord)
        → IsTable key_key rows
        → type_eq a b ≡ false
        → find key_key (ref_for new b) (move_key fold old new a rows)
          ≡ find key_key (ref_for new b) rows
    other_new a b rows h differ =
        move_key-other a rows h (ref_for new b) (same_owner new a b ∙ differ) (new_apart b a)

    other_old :
        (a b : KeyType) (rows : List KeyRecord)
        → IsTable key_key rows
        → type_eq b a ≡ false
        → find key_key (ref_for old b) (move_key fold old new a rows)
          ≡ find key_key (ref_for old b) rows
    other_old a b rows h differ =
        move_key-other a rows h (ref_for old b) (new_apart a b) (same_owner old b a ∙ differ)

    module _ (rows : List KeyRecord) (h : IsTable key_key rows) where
      abbrev first : List KeyRecord
      first = move_key fold old new admin_public rows

      abbrev second : List KeyRecord
      second = move_key fold old new admin_private first

      abbrev third : List KeyRecord
      third = move_key fold old new channel_psk second

      first-IsTable : IsTable key_key first
      first-IsTable = (move_key-lem admin_public rows h).0

      second-IsTable : IsTable key_key second
      second-IsTable = (move_key-lem admin_private first first-IsTable).0

      third-IsTable : IsTable key_key third
      third-IsTable = (move_key-lem channel_psk second second-IsTable).0

      third-new :
          (b : KeyType)
          → find key_key (ref_for new b) rows ≡ none
          → find key_key (ref_for new b) third ≡ refile new b (find key_key (ref_for old b) rows)
      third-new admin_public free =
          other_new channel_psk admin_public second second-IsTable refl
          ∙ other_new admin_private admin_public first first-IsTable refl
          ∙ move_key-new admin_public rows h free
      third-new admin_private free =
          other_new channel_psk admin_private second second-IsTable refl
          ∙ move_key-new admin_private first first-IsTable
              (other_new admin_public admin_private rows h refl ∙ free)
          ∙ ap (refile new admin_private) (other_old admin_public admin_private rows h refl)
      third-new channel_psk free =
          move_key-new channel_psk second second-IsTable (
            other_new admin_private channel_psk first first-IsTable refl
            ∙ other_new admin_public channel_psk rows h refl
            ∙ free)
          ∙ ap (refile new channel_psk) (
              other_old admin_private channel_psk first first-IsTable refl
              ∙ other_old admin_public channel_psk rows h refl)

      third-old : (b : KeyType) → find key_key (ref_for old b) third ≡ none
      third-old admin_public =
          other_old channel_psk admin_public second second-IsTable refl
          ∙ other_old admin_private admin_public first first-IsTable refl
          ∙ move_key-old admin_public rows h
      third-old admin_private =
          other_old channel_psk admin_private second second-IsTable refl
          ∙ move_key-old admin_private first first-IsTable
      third-old channel_psk = move_key-old channel_psk second second-IsTable

      third-other :
          (k : Text)
          → ((b : KeyType) → text_eq (ref_for new b) k ≡ false)
          → ((b : KeyType) → text_eq k (ref_for old b) ≡ false)
          → find key_key k third ≡ find key_key k rows
      third-other k not_new not_old =
          move_key-other channel_psk second second-IsTable k (not_new channel_psk)
            (not_old channel_psk)
          ∙ move_key-other admin_private first first-IsTable k (not_new admin_private)
              (not_old admin_private)
          ∙ move_key-other admin_public rows h k (not_new admin_public) (not_old admin_public)

      -- The moved rows are the old ones under the new owner's references, the old references lead to
      -- nothing, and every other reference leads where it did.
      pub move_keys-lem :
          ((b : KeyType) → find key_key (ref_for new b) rows ≡ none)
          → let after = move_keys fold old new key_types rows in
            IsTable key_key after
            × ((b : KeyType)
                → find key_key (ref_for new b) after
                  ≡ refile new b (find key_key (ref_for old b) rows))
            × ((b : KeyType) → find key_key (ref_for old b) after ≡ none)
            × ((k : Text)
                → ((b : KeyType) → text_eq (ref_for new b) k ≡ false)
                → ((b : KeyType) → text_eq k (ref_for old b) ≡ false)
                → find key_key k after ≡ find key_key k rows)
      unfolding move_keys
      move_keys-lem free = (third-IsTable, λ b. third-new b (free b), third-old, third-other)
