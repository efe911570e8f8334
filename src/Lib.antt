-- ===== src/Lib.antt =====
-- A model of meshprovision, the tool that provisions Meshtastic radios from a template and keeps a
-- spreadsheet of them, and the theorems that make its pure core correct.
--
-- The program reads a device (provisioning/detect.py), works out a change plan from the template, the
-- database and the live state (provisioning/plan*.py), writes it section by section over a session
-- that reconnects between writes (provisioning/apply*.py), and records the node (db/). Node ids and
-- names run through all of these. Paths below are those of src/meshprovision/.
--
--   Common        shared names, texts as lists of code points, digits in a base, sorting.
--   NodeId        nodeid.py: NodeId, from_int, from_hex, from_decimal, from_display, parse and the
--                 printed forms, by the same names. An exception is a value of NodeIdError; the
--                 CRC-32 is a parameter.
--   NamePattern   name_pattern.py: PatternSpec with compile, render and parse_index, and the checks of
--                 the suffix alphabet. The case fold of a character is a parameter. The compiler's
--                 loop runs on fuel, the pattern's length, since every round reads a character.
--   Names         db/nodes.py (find_next_free_name, used_short_names, used_long_names) and
--                 provisioning/pipeline.py (allocate_names): the names that a node is given.
--   Firmware      firmware.py: version texts, over ASCII digits.
--   Plan          the inputs of a plan, from provisioning/plan_types.py and detect_types.py.
--   Plan.AdminKeys   provisioning/plan_admin_keys.py: plan_admin_key_material.
--   Plan.Keypair     provisioning/plan_security.py: plan_node_keypair.
--   Plan.Lockdown    provisioning/plan_security.py: evaluate_lockdown.
--   Plan.Section     provisioning/plan_security.py: plan_security_section, on the section's values.
--   Build         provisioning/plan.py: build_plan, with the functions that plan each section. The values
--                 of the device's fields, with their equality, are a parameter. A template's section
--                 is the list of the fields that it sets, and the loops run over those lists.
--   Apply         provisioning/apply_session.py: ApplyOutcome, and ReconnectingSession.refresh with the
--                 backend as a parameter and its sleeps and closes as a list of events.
--   Run           provisioning/plan_types.py: a change plan, and to_record in Run.Record.
--   Run.Readback     provisioning/readback.py: verify_plan and its parts. The equality and the text of a
--                 field's value, fingerprints and base64 are parameters.
--   Run.ApplyPlan    provisioning/apply.py: apply_plan. A device is a record of what each of its calls
--                 gives, in Run.Device; a run gives its outcome and the calls it made, with their
--                 answers. The loops run over the plan's sections, so no fuel is needed.
--   Run.Ordering     the calls of a run as a state machine.
--   Persist       provisioning/persist.py: persist_result, with the clock and the save's result as
--                 parameters.
--   Backups       db/backups.py: _monotonic_backup_time and prune_backups, over the listing of a
--                 directory; what each removal does is a parameter.
--   Db            db/schema.py, db/keys.py, db/node_record.py: the rows of the two sheets, as records.
--   Db.Table         db/nodes.py, db/keys.py: find, upsert and delete, once for both repositories.
--   Db.Sorting       db/sorting.py: the order of the rows, with ASCII digits.
--   Db.Renumber      db/renumber.py: check_renumber and renumber_rows, over both sheets.
--   Files         db/atomic_writer.py (write_bytes_atomic, atomic_write) and db/backups.py
--                 (create_backup): straight-line calls, each with what it does to the disk and what
--                 it leaves when it raises; which calls fail is a parameter. A power cut is a prefix of
--                 the steps, after which an unflushed file is torn and a rename may be undone.
--                 A backup is followed by the sync of its directory and by a pruning that spares it,
--                 and that deletes the others beyond the retention as far as their unlinks succeed.
--   Files.Links      db/fs_primitives.py (link_no_clobber) and db/backups.py (_claim_backup_path), whose
--                 loop runs on fuel; what a claim that runs out of fuel has tried is stated.
--   Session       db/ods.py (OdsDatabase: load, replace, save and its check for a concurrent edit) and
--                 db/ods_write.py (write_database), over the file of Files. A save checks one world
--                 and writes in another, as its check does not keep other writers out.
--   Network       network/buckets.py: merge and prune over the stored hours, and _sum in Network.Counts;
--                 an hour's traffic and the addition of values are parameters.
--   Status        status/cadence.py: expected intervals and availability thresholds, with a timedelta
--                 as its number of microseconds.
--
-- A function that raises returns a Result, whose error is a constructor with the data that the
-- exception carries; the texts of exceptions are left out, those of results are kept. Not modelled:
-- device and network I/O, the spreadsheet's file format, file locking, the known-good copy of the
-- database, the network's graph, the command line, and code whose result is a float.
pub mod Common
pub mod NodeId
pub mod NamePattern
pub mod Names
pub mod Firmware
pub mod Plan
pub mod Apply
pub mod Backups
pub mod Status
pub mod Db
pub mod Run
pub mod Persist
pub mod Build
pub mod Files
pub mod Session
pub mod Network
