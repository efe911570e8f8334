-- ===== src/Run/Accounts.antt =====
-- src/meshprovision/provisioning/apply.py, `_write_in_order`: what a pass says of each section.
use meshprovision.Common.{
  ◌≡◌, refl, ap, Bool, true, false, ◌⊎◌, inl, inr, Option, none, some, List, [], ◌∷◌, ◌++◌, all,
  map,
}
use meshprovision.Common.Text.{Text, codes}
use meshprovision.Apply.{WriteStatus, failed, skipped, WriteResult}
use meshprovision.Run.{SectionChange}
use meshprovision.Run.Device.{Sent, sent, refused_before, write_failed, Device, Call, wrote}
use meshprovision.Run.Execution.{Pass, add_answer, write_in_order}
use meshprovision.Run.ApplyPlan.{names_of}

-- The sections that were sent, by the calls; a refused one was not.
abbrev pub written_by : List Call → List Text
written_by [] = []
written_by (wrote s (refused_before exc) ∷ calls) = written_by calls
written_by (wrote s answer ∷ calls) = s ∷ written_by calls
written_by (_ ∷ calls) = written_by calls

-- The section and the status of each result.
abbrev pub verdicts : List WriteResult → List (Text × WriteStatus)
verdicts results = map (λ r. (r.section, r.status)) results

abbrev pub skips : List Text → List (Text × WriteStatus)
skips names = map (λ n. (n, skipped)) names

abbrev pub is_sent : Sent → Bool
is_sent sent = true
is_sent answer = false

module _ {V : Type 0} (device : Device V) where
  abbrev pub all_sent : List Text → Bool
  all_sent names = all (λ n. is_sent (device.write n)) names

  -- The device takes every section: all are sent, in order, and there is no result and no reason to stop.
  abbrev pub IsWritten : List Text → Pass → Type 0
  IsWritten names pass =
      (all_sent names ≡ true)
      × (pass.attempted ≡ names)
      × (pass.results ≡ [])
      × (pass.stop_reason ≡ none)

  -- The device takes the sections before `k` and not `k`, which has the first result, a failure; the others
  -- are skipped, in order. `k` counts as sent when its write failed, and not when it was refused.
  abbrev pub IsStopped : List Text → Pass → Type 0
  IsStopped names pass =
      (front : List Text) × (k : Text) × (tail : List Text) × (names ≡ front ++ k ∷ tail)
      × (all_sent front ≡ true)
      × (verdicts pass.results ≡ (k, failed) ∷ skips tail)
      × ((reason : Text) × (pass.stop_reason ≡ some reason))
      × (((exc : Text) × (device.write k ≡ refused_before exc) × (pass.attempted ≡ front))
          ⊎ ((exc : Text) × (device.write k ≡ write_failed exc)
              × (pass.attempted ≡ front ++ k ∷ [])))

  -- The account of a pass that is told to stop, or not.
  abbrev pub IsAccount : List Text → Option Text → Pass → Type 0
  IsAccount names (some reason) pass =
      (pass.attempted ≡ [])
      × (pass.calls ≡ [])
      × (verdicts pass.results ≡ skips names)
      × (pass.stop_reason ≡ some reason)
  IsAccount names none pass =
      (IsWritten names pass ⊎ IsStopped names pass) × (written_by pass.calls ≡ pass.attempted)

  add_answer-IsAccount :
      (section : Text) (answer : Sent) (names : List Text) (rest : Pass)
      (stopped_rest : Text → Pass)
      → device.write section ≡ answer
      → IsAccount names none rest
      → ((reason : Text) → IsAccount names (some reason) (stopped_rest reason))
      → IsAccount (section ∷ names) none (add_answer section answer rest stopped_rest)
  unfolding add_answer
  add_answer-IsAccount section sent names rest stopped_rest e (inl (all_taken, att, res, stop), sum)
        stops =
      (inl (rw e all_taken, ap (λ l. section ∷ l) att, res, stop), ap (λ l. section ∷ l) sum)
  add_answer-IsAccount section sent names rest stopped_rest e
        (inr (front, k, tail, parts, taken, res, stop, inl (exc, refused, att)), sum) stops =
      (
        inr (
          section ∷ front,
          k,
          tail,
          ap (λ l. section ∷ l) parts,
          rw e taken,
          res,
          stop,
          inl (exc, refused, ap (λ l. section ∷ l) att),
        ),
        ap (λ l. section ∷ l) sum,
      )
  add_answer-IsAccount section sent names rest stopped_rest e
        (inr (front, k, tail, parts, taken, res, stop, inr (exc, wrong, att)), sum) stops =
      (
        inr (
          section ∷ front,
          k,
          tail,
          ap (λ l. section ∷ l) parts,
          rw e taken,
          res,
          stop,
          inr (exc, wrong, ap (λ l. section ∷ l) att),
        ),
        ap (λ l. section ∷ l) sum,
      )
  add_answer-IsAccount section (refused_before exc) names rest stopped_rest e on stops =
      let reason = section ++ codes " could not be written" in
      let stop = stops reason in
      (
        inr (
          [],
          section,
          names,
          refl,
          refl,
          ap (λ l. (section, failed) ∷ l) stop.2,
          (reason, stop.3),
          inl (exc, e, stop.0),
        ),
        rw stop.1 (cc stop.0),
      )
  add_answer-IsAccount section (write_failed exc) names rest stopped_rest e on stops =
      let reason = codes "the " ++ (section ++ codes " write failed") in
      let stop = stops reason in
      (
        inr (
          [],
          section,
          names,
          refl,
          refl,
          ap (λ l. (section, failed) ∷ l) stop.2,
          (reason, stop.3),
          inr (exc, e, ap (λ l. section ∷ l) stop.0),
        ),
        rw stop.1 (cc stop.0),
      )

  -- What a pass over sections that is not told to stop has done. Either the device takes them all: then
  -- all are sent, and the pass has no result and no reason to stop. Or it stops at the first section that
  -- is refused or whose write fails: the sections before it are sent and have no result, its own result is
  -- a failure, every later section has a result that says it was skipped, in order, and the pass has a
  -- reason to stop; the section itself counts as sent when its write failed, and not when it was refused.
  -- The sections recorded as sent are those of the calls, in order. A pass that is told to stop sends
  -- nothing, makes no call, and skips every section.
  pub write_in_order-IsAccount :
      (changes : List (SectionChange V)) (stop : Option Text)
      → IsAccount (names_of changes) stop (write_in_order device changes stop)
  unfolding write_in_order
  write_in_order-IsAccount [] none = (inl (refl, refl, refl, refl), refl)
  write_in_order-IsAccount [] (some reason) = (refl, refl, refl, refl)
  write_in_order-IsAccount (s ∷ changes) none =
      add_answer-IsAccount s.section (device.write s.section) (names_of changes)
        (write_in_order device changes none) (λ reason. write_in_order device changes (some reason))
        refl (write_in_order-IsAccount changes none)
        (λ reason. write_in_order-IsAccount changes (some reason))
  write_in_order-IsAccount (s ∷ changes) (some reason) =
      let rest = write_in_order-IsAccount changes (some reason) in
      (rest.0, rest.1, ap (λ l. (s.section, skipped) ∷ l) rest.2, rest.3)
