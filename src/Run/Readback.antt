-- ===== src/Run/Readback.antt =====
-- src/meshprovision/provisioning/readback.py: what was written is compared with the device's state.
-- Key fingerprints, base64 and the equality and printing of field values are parameters.
use meshprovision.Common.{
  ℕ, suc, ◌+◌, ◌-◌, Bool, true, false, not, ◌&&◌, ◌||◌, Option, none, some, List, [], ◌∷◌, ◌++◌,
  map, length, ltb, leb, is_empty, if◌then◌else◌, Result, ok, err,
}
use meshprovision.Common.Digits.{to_digits}
use meshprovision.Common.Text.{Text, codes, starts_with}
use meshprovision.Common.Equality.{◌==◌, Text_eq, mem}
use meshprovision.Common.Sorting.{sort, lex_le}
use meshprovision.Plan.AdminKeys.{texts_eq}
use meshprovision.Apply.{confirmed, unconfirmed, WriteResult}
use meshprovision.Run.{
  short_changed, long_changed, is_unmessagable_changed, flag_eq, FieldChange, SectionChange,
  ChangePlan, KeyPair, LiveConfig,
}

-- What `getPublicKey` gives: None, bytes, a base64 text, or a value of another type.
pub data DeviceKey : Type 0 where
  absent_key other_key : DeviceKey
  raw_key : List ℕ → DeviceKey
  encoded_key : Text → DeviceKey

abbrev pub number_text : ℕ → Text
number_text n = map (λ d. d + 48) (to_digits 10 (suc n) n [])

-- `str` of an optional flag.
abbrev pub flag_text : Option Bool → Text
flag_text none = codes "None"
flag_text (some true) = codes "True"
flag_text (some false) = codes "False"

abbrev pub utf8_max_cut_bytes : ℕ
utf8_max_cut_bytes = 3

abbrev pub short_name_max_bytes : ℕ
short_name_max_bytes = 4

abbrev pub long_name_max_bytes : ℕ
long_name_max_bytes = 25

-- `len(s.encode("utf-8"))`
abbrev pub utf8_length : Text → ℕ
utf8_length [] = 0
utf8_length (c ∷ s) =
    (if ltb c 128 then 1 else if ltb c 2048 then 2 else if ltb c 65536 then 3 else 4)
    + utf8_length s

abbrev pub confirmed_owner : Text → Text → WriteResult
confirmed_owner field message = record {
  section = codes "owner";
  status = confirmed;
  message = message;
  field = some field;
  expected = none;
  actual = none;
}

unfoldable pub not_read_back : Text → WriteResult
not_read_back field = confirmed_owner field (codes "written; not read back (--no-reconnect)")

unfoldable pub is_firmware_truncation : Text → Text → ℕ → Bool
unfolding starts_with
is_firmware_truncation desired actual limit =
    let desired_bytes = utf8_length desired in
    let actual_bytes = utf8_length actual in
    starts_with actual desired
    && ltb limit desired_bytes
    && leb (limit - utf8_max_cut_bytes) actual_bytes
    && ltb actual_bytes desired_bytes

-- The name field, its limit, and what the device reports of it.
unfoldable pub verify_name : Text → ℕ → Text → Option Text → Bool → Option WriteResult
unfolding not_read_back is_firmware_truncation
verify_name field limit actual none read_back = none
verify_name field limit actual (some desired) read_back = some (
    if actual == desired
    then confirmed_owner field (codes "confirmed")
    else if not read_back
    then not_read_back field
    else if not (is_empty actual) && is_firmware_truncation desired actual limit
    then record {
      section = codes "owner";
      status = confirmed;
      message =
          codes "firmware truncated the name to "
          ++ (number_text (utf8_length actual) ++ codes " bytes");
      field = some field;
      expected = some desired;
      actual = some actual;
    }
    else record {
      section = codes "owner";
      status = unconfirmed;
      message = codes "name did not match after write";
      field = some field;
      expected = some desired;
      actual = some actual;
    })

-- `live_after.security.public_key == keypair.public`, and the same of the other view.
abbrev pub holds : Option (List ℕ) → List ℕ → Bool
holds none key = false
holds (some held) key = held == key

abbrev pub available : DeviceKey → Bool
available absent_key = false
available other_key = true
available (raw_key key) = true
available (encoded_key s) = true

abbrev pub joined : List Text → Text
joined [] = []
joined (s ∷ []) = s
joined (s ∷ t ∷ rest) = s ++ (codes ", " ++ joined (t ∷ rest))

abbrev pub listed : Option WriteResult → List WriteResult
listed none = []
listed (some r) = r ∷ []

abbrev pub wanted : Bool → Text → Option Text
wanted changed desired = if changed then some desired else none

module _ {V : Type 0} (same : V → V → Bool) (text_of : V → Text) (fingerprint : List ℕ → Text)
    (decode_key : Text → Result Text (List ℕ)) where
  unfoldable pub verify_is_unmessagable : ChangePlan V → LiveConfig V → Bool → Option WriteResult
  unfolding is_unmessagable_changed not_read_back
  verify_is_unmessagable plan live_after read_back =
      let desired = plan.name_change.desired_is_unmessagable in
      if not (is_unmessagable_changed plan.name_change)
      then none
      else some (
          if flag_eq live_after.is_unmessagable desired
          then confirmed_owner (codes "is_unmessagable") (codes "confirmed")
          else if not read_back
          then not_read_back (codes "is_unmessagable")
          else record {
            section = codes "owner";
            status = unconfirmed;
            message = codes "value mismatch after write";
            field = some (codes "is_unmessagable");
            expected = some (flag_text desired);
            actual = some (flag_text live_after.is_unmessagable);
          })

  abbrev pub fingerprint_or_absent : Option (List ℕ) → Text
  fingerprint_or_absent none = codes "<absent>"
  fingerprint_or_absent (some key) = fingerprint key

  -- The bytes of the NodeDB view, or why they did not decode.
  unfoldable pub nodedb_view : DeviceKey → Result Text (Option (List ℕ))
  nodedb_view absent_key = ok none
  nodedb_view other_key = ok none
  nodedb_view (raw_key key) = ok (some key)
  nodedb_view (encoded_key s) = elim (decode_key s) [
    | ok key ↦ ok (some key)
    | err reason ↦ err reason
  ]

  unfoldable pub nodedb_ok : DeviceKey → List ℕ → Bool
  unfolding nodedb_view
  nodedb_ok view key = elim (nodedb_view view) [ ok held ↦ holds held key | err reason ↦ false ]

  unfoldable pub key_mismatch : LiveConfig V → KeyPair → DeviceKey → WriteResult
  unfolding nodedb_view
  key_mismatch live_after keypair device_public_key =
      let report : Text → Text → WriteResult = λ view actual. record {
        section = codes "security";
        status = unconfirmed;
        message = codes "public key mismatch after write (" ++ (view ++ codes ")");
        field = some (codes "public_key");
        expected = some (fingerprint keypair.public);
        actual = some actual;
      } in
      if not (holds live_after.public_key keypair.public)
      then report (codes "LocalConfig") (fingerprint_or_absent live_after.public_key)
      else elim (nodedb_view device_public_key) [
        | err reason ↦
            report (codes "NodeDB")
              (codes "<NodeDB value did not decode: " ++ (reason ++ codes ">"))
        | ok held ↦ report (codes "NodeDB") (fingerprint_or_absent held)
      ]

  unfoldable pub verify_key_material :
      ChangePlan V → LiveConfig V → Option KeyPair → DeviceKey → Option WriteResult
  unfolding nodedb_ok key_mismatch
  verify_key_material plan live_after none device_public_key = none
  verify_key_material plan live_after (some keypair) device_public_key =
      let nodedb_available = available device_public_key in
      if not (plan.key_plan.regenerate || plan.key_plan.adopt_device_key)
      then none
      else some (
          if holds live_after.public_key keypair.public
            && (nodedb_ok device_public_key keypair.public || not nodedb_available)
          then record {
            section = codes "security";
            status = confirmed;
            message =
                codes "public key confirmed"
                ++ (if nodedb_available then [] else codes " (NodeDB cross-check unavailable)");
            field = some (codes "public_key");
            expected = none;
            actual = none;
          }
          else key_mismatch live_after keypair device_public_key)

  unfoldable pub verify_admin_keys : ChangePlan V → LiveConfig V → Option WriteResult
  unfolding sort
  verify_admin_keys plan live_after =
      let desired = sort lex_le plan.key_plan.desired_admin_keys in
      let actual = sort lex_le live_after.admin_keys in
      let shown : List (List ℕ) → Text = λ keys.
        if is_empty (joined (map fingerprint keys))
        then codes "<none>"
        else joined (map fingerprint keys) in
      if not plan.key_plan.change_admin_keys
      then none
      else some (
          if texts_eq desired actual
          then record {
            section = codes "security";
            status = confirmed;
            message = number_text (length actual) ++ codes " admin key(s) confirmed";
            field = some (codes "admin_key");
            expected = none;
            actual = none;
          }
          else record {
            section = codes "security";
            status = unconfirmed;
            message =
                codes "admin key set mismatch: expected "
                ++ (number_text (length desired)
                    ++ (codes ", got " ++ number_text (length actual)));
            field = some (codes "admin_key");
            expected = some (shown desired);
            actual = some (shown actual);
          })

  unfoldable pub render_value : V → Bool → Text
  render_value value secret = if secret then codes "<redacted>" else text_of value

  -- What the device now holds in a field.
  unfoldable pub actual_value : LiveConfig V → Text → Text → V
  actual_value live_after section field =
      if section == codes "security"
      then live_after.security_field field
      else if section == codes "default_channel"
      then live_after.default_channel field
      else live_after.value section field

  unfoldable pub verify_field : LiveConfig V → Text → FieldChange V → WriteResult
  unfolding actual_value render_value
  verify_field live_after section change =
      let actual = actual_value live_after section change.field in
      if same actual change.desired
      then record {
        section = section;
        status = confirmed;
        message = codes "confirmed";
        field = some change.field;
        expected = none;
        actual = none;
      }
      else record {
        section = section;
        status = unconfirmed;
        message = codes "value mismatch after write";
        field = some change.field;
        expected = some (render_value change.desired change.secret);
        actual = some (render_value actual change.secret);
      }

  unfoldable pub verify_sections :
      LiveConfig V → List Text → List (SectionChange V) → List WriteResult
  unfolding verify_field
  verify_sections live_after attempted [] = []
  verify_sections live_after attempted (s ∷ sections) =
      let rest = verify_sections live_after attempted sections in
      if mem s.section attempted
      then map (verify_field live_after s.section) s.changes ++ rest
      else rest

  -- The names and the flag of the owner.
  unfoldable pub verify_owner : ChangePlan V → LiveConfig V → Bool → List WriteResult
  unfolding short_changed long_changed verify_name verify_is_unmessagable
  verify_owner plan live_after read_back =
      let names = plan.name_change in
      listed (
        verify_name (codes "short_name") short_name_max_bytes live_after.short_name
          (wanted (short_changed names) names.desired_short_name) read_back)
      ++ (listed (
            verify_name (codes "long_name") long_name_max_bytes live_after.long_name
              (wanted (long_changed names) names.desired_long_name) read_back)
          ++ listed (verify_is_unmessagable plan live_after read_back))

  unfoldable pub verify_plan :
      ChangePlan V → LiveConfig V → Option KeyPair → DeviceKey → List Text → Bool → List WriteResult
  unfolding verify_owner verify_sections verify_key_material verify_admin_keys
  verify_plan plan live_after keypair device_public_key attempted read_back =
      let security_attempted = mem (codes "security") attempted in
      verify_owner plan live_after read_back
      ++ (verify_sections live_after attempted plan.sections
          ++ (listed (
                if security_attempted || not plan.key_plan.regenerate
                then verify_key_material plan live_after keypair device_public_key
                else none)
              ++ listed (if security_attempted then verify_admin_keys plan live_after else none)))
