-- ===== src/Run/Tests.antt =====
-- A run that writes one module field and the security section to a device that takes them.
use meshprovision.Common.{
  ℕ, ◌≡◌, refl, true, false, not, ◌||◌, Option, none, some, List, [], ◌∷◌, ok, err, ◌==◌ as nat_eq,
}
use meshprovision.Common.Text.{codes}
use meshprovision.Common.Equality.{mem, Text_eq}
use meshprovision.Common.Sorting.{sort, lex_le}
use meshprovision.NodeId.{NodeId}
use meshprovision.Apply.{may_update_database, is_doubtful, write_ok}
use meshprovision.Plan.AdminKeys.{texts_eq}
use meshprovision.Run.{nothing_to_do, NameChange, ChangePlan, KeyPair, LiveConfig}
use meshprovision.Run.Readback.{DeviceKey, raw_key, verify_plan}
use meshprovision.Run.Device.{Device, sent, refused_before, owner_set}
use meshprovision.Run.Execution.{proven_renumber, write_in_order}
use meshprovision.Run.ApplyPlan.{Outside, is_none, names_of, run, apply_plan}
use meshprovision.Run.Certain.{apply_plan-row_iff}
use meshprovision.Run.Identity.{IsSameNode, run-row_identity}
use meshprovision.Run.Confirmed.{all_taken, verify_plan-taken}
use meshprovision.Run.Accounts.{IsAccount, write_in_order-IsAccount}

abbrev node : NodeId
node = record { num = 48879 }

abbrev outside : Outside ℕ
outside = record {
  same = nat_eq;
  text_of = λ n. codes "value";
  fingerprint = λ key. codes "key";
  decode_key = λ s. err (codes "not base64");
  crc32 = λ bytes. 77777;
  default_role = codes "CLIENT";
  default_region = codes "UNSET";
}

abbrev names : NameChange
names = record {
  current_short_name = codes "ab";
  desired_short_name = codes "ab";
  current_long_name = codes "abc";
  desired_long_name = codes "abc";
  current_is_unmessagable = none;
  desired_is_unmessagable = none;
  desired_is_licensed = false;
}

abbrev admin_key : List ℕ
admin_key = 1 ∷ 2 ∷ []

abbrev plan : ChangePlan ℕ
plan = record {
  node_id = node;
  name_change = names;
  sections =
      record {
        section = codes "mqtt";
        changes = record { field = codes "enabled"; desired = 1; secret = false } ∷ [];
      }
      ∷ record { section = codes "security"; changes = [] }
      ∷ [];
  key_plan = record {
    regenerate = false;
    adopt_device_key = false;
    change_admin_keys = true;
    desired_admin_keys = admin_key ∷ [];
    desired_admin_key_refs = codes "0000beef_pub" ∷ [];
    removed_admin_key_refs = [];
    rejected_admin_key_refs = [];
  };
  ble_pin_set = false;
  hw_model = codes "TBEAM";
  firmware_version = codes "2.8.0";
  role = codes "CLIENT";
  region = codes "EU_868";
  db_entry = none;
}

abbrev live : LiveConfig ℕ
live = record {
  node_id = node;
  short_name = codes "ab";
  long_name = codes "abc";
  is_unmessagable = none;
  public_key = none;
  private_key = none;
  admin_keys = admin_key ∷ [];
  security_field = λ f. 0;
  default_channel = λ f. 0;
  value = λ s f. 1;
}

abbrev device : Device ℕ
device = record {
  begins = none;
  owner = owner_set;
  write = λ s. sent;
  commits = none;
  refresh_after_commit = none;
  node_id_after_commit = ok node;
  refresh_to_verify = none;
  read_back = ok (live, raw_key []);
}

apply_plan-row_iff_example :
    may_update_database (run outside device plan true none).0
    ≡ not (is_none (run outside device plan true none).0.row)
unfolding apply_plan nothing_to_do
apply_plan-row_iff_example =
    apply_plan-row_iff outside device plan true none false (run outside device plan true none) refl

run-row_identity_example :
    (found : LiveConfig ℕ × DeviceKey) × (device.read_back ≡ ok found)
    × IsSameNode outside device plan none
        (run outside device plan true none).0
        found.0.node_id
        (proven_renumber outside.crc32 plan found.0 none)
unfolding run is_doubtful texts_eq write_ok
run-row_identity_example = run-row_identity outside device plan true none refl

verify_plan-taken_example :
    (all_taken outside.same outside.text_of outside.fingerprint outside.decode_key live
        (codes "mqtt" ∷ codes "security" ∷ [])
        plan.sections
      ≡ true)
    × (mem (codes "security") (codes "mqtt" ∷ codes "security" ∷ []) ≡ true
        → plan.key_plan.change_admin_keys ≡ true
        → sort lex_le plan.key_plan.desired_admin_keys ≡ sort lex_le live.admin_keys)
    × ((pair : KeyPair)
        → Path (Option KeyPair) none (some pair)
        → (plan.key_plan.regenerate || plan.key_plan.adopt_device_key) ≡ true
        → (mem (codes "security") (codes "mqtt" ∷ codes "security" ∷ [])
            || not plan.key_plan.regenerate)
          ≡ true
        → live.public_key ≡ some pair.public)
unfolding verify_plan is_doubtful texts_eq
verify_plan-taken_example =
    verify_plan-taken outside.same outside.text_of outside.fingerprint outside.decode_key live plan
      none (raw_key []) (codes "mqtt" ∷ codes "security" ∷ []) true refl

-- A device that refuses every section, so that a pass stops at the first.
abbrev refusing : Device ℕ
refusing = record device { write = λ s. refused_before (codes "no such value") }

write_in_order-IsAccount_example :
    IsAccount refusing (names_of plan.sections) none (write_in_order refusing plan.sections none)
write_in_order-IsAccount_example = write_in_order-IsAccount refusing plan.sections none
