-- ===== src/Session/Tests.antt =====
-- A session that adds a row to the nodes of a database, in a format that is one row of nodes.
use meshprovision.Common.{◌≡◌, ◌⊎◌, refl, ℕ, Bool, true, false, some, List, [], ◌∷◌, ok, err}
use meshprovision.Common.Text.{Text}
use meshprovision.Files.{File, Call}
use meshprovision.Files.Replaced.{before, holding, backed_up}
use meshprovision.Session.{
  Identity, World, nodes_sheet, Format, Session, SessionError, concurrent_modification, content_of,
  fresh_session, load, unmodified, save,
}
use meshprovision.Session.Saved.{edit, save-no_lost_edit, save-outcome}

abbrev format : Format ℕ Text
format = record {
  parse = λ content. ok (record { nodes = content; keys = [] });
  serialize = λ rows. rows.nodes;
  sorted_rows = λ sheet rows. rows;
  sha256 = λ content. content;
}

abbrev identity_of : ℕ → Identity
identity_of mtime = record { device = 1; inode = 2; mtime = mtime; size = 3 }

abbrev world : List ℕ → ℕ → World
world content mtime = record { disk = holding (some content) []; identity = identity_of mtime }

abbrev session : Bool → List ℕ → Session ℕ
session is_dirty rows = record {
  loaded = true;
  is_dirty = is_dirty;
  rows = record { nodes = rows; keys = [] };
  seen = some (identity_of 1, 1 ∷ []);
}

abbrev no_failure : Call → Bool
no_failure call = false

abbrev kept_all : List File → List File
kept_all backups = backups

-- The file was touched meanwhile, and has its old content.
saved : Session ℕ
saved = record {
  loaded = true;
  is_dirty = false;
  rows = record { nodes = 1 ∷ 2 ∷ []; keys = [] };
  seen = some (identity_of 9, 1 ∷ 2 ∷ []);
}

is_saved :
    (save format no_failure [] 10 kept_all
      (identity_of 9)
      (world (1 ∷ []) 5)
      (world (1 ∷ []) 5)
      (session true (1 ∷ 2 ∷ []))).1
    ≡ ok saved
unfolding saved save
is_saved = refl

is_loaded : load format true (world (1 ∷ []) 1) (fresh_session format) ≡ ok (session false (1 ∷ []))
unfolding load
is_loaded = refl

is_edited :
    edit format ((world [] 7, nodes_sheet, 1 ∷ 2 ∷ []) ∷ []) (session false (1 ∷ []))
    ≡ ok (session true (1 ∷ 2 ∷ []))
unfolding edit
is_edited = refl

save-no_lost_edit_example : content_of (world (1 ∷ []) 5) ≡ content_of (world (1 ∷ []) 1)
save-no_lost_edit_example =
    save-no_lost_edit format no_failure [] 10 kept_all (identity_of 9) (world (1 ∷ []) 1)
      (world (1 ∷ []) 5) (world (1 ∷ []) 5) (session false (1 ∷ [])) (session true (1 ∷ 2 ∷ []))
      saved ((world [] 7, nodes_sheet, 1 ∷ 2 ∷ []) ∷ []) is_loaded is_edited refl is_saved refl
      (λ e. refl) (λ a b h e. e)

-- Another program has written the file meanwhile.
is_refused :
    save format no_failure [] 10 kept_all
      (identity_of 9)
      (world (4 ∷ []) 5)
      (world (4 ∷ []) 5)
      (session true (1 ∷ 2 ∷ []))
    ≡ (world (4 ∷ []) 5, err concurrent_modification)
unfolding save
is_refused = refl

save-outcome_example :
    let w = world (1 ∷ []) 5 in
    let s = session true (1 ∷ 2 ∷ []) in
    let run = save format no_failure [] 10 kept_all (identity_of 9) w w s in
    ((s' : Session ℕ) × (run.1 ≡ ok s')
      × (content_of run.0 ≡ some (1 ∷ 2 ∷ []))
      × (s'.is_dirty ≡ false)
      × (unmodified format run.0 s' ≡ true)
      × (run.0.disk.backups ≡ backed_up 10 kept_all true (some (1 ∷ [])) [])
      × ((again : Session ℕ) × (load format true run.0 (fresh_session format) ≡ ok again)))
    ⊎ ((e : SessionError Text) × (run.1 ≡ err e) × (run.0.disk.target ≡ before (some (1 ∷ []))))
save-outcome_example =
    save-outcome format no_failure [] 10 kept_all (identity_of 9) (some (1 ∷ [])) []
      (world (1 ∷ []) 5) (world (1 ∷ []) 5) (session true (1 ∷ 2 ∷ [])) refl refl
