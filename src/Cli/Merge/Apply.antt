-- ===== src/Cli/Merge/Apply.antt =====
-- src/battery-pack/bphelper-cli/src/merge.rs, the application of rendered files to a project. The
-- files, the keys that the user types, the editor and the two merges are the world's; what is only
-- printed, such as a diff, is left out.
pub mod Reports
pub mod Decided
pub mod Untouched
use battery_pack.Prelude.{ℕ, ◌==◌, Text, chars, text_eq, ends_with, Result, ok, err}
use battery_pack.Prelude.{
  Bool, true, false, not, ◌||◌, Option, none, some, List, [], ◌∷◌, ◌++◌, if◌then◌else◌,
}
use battery_pack.Prelude.Map
use battery_pack.Prelude.Map.{Map}

pub data MergeStrategy : Type 0 where
  toml : MergeStrategy
  yaml : MergeStrategy
  plain : MergeStrategy

abbrev pub contains_slash : Text → Bool
contains_slash [] = false
contains_slash (c ∷ s) = c == b'/' || contains_slash s

-- `path.rsplit('/').next()`
unfoldable pub filename : Text → Text
filename [] = []
filename (c ∷ s) =
    let rest = filename s in if contains_slash s then rest else if c == b'/' then s else c ∷ s

unfoldable pub strategy_for : Text → MergeStrategy
unfolding filename
strategy_for path =
    if ends_with (chars ".toml") (filename path)
    then toml
    else if ends_with (chars ".yml") (filename path) || ends_with (chars ".yaml") (filename path)
    then yaml
    else plain

pub data FileResult : Type 0 where
  created : Text → FileResult
  merged : Text → FileResult
  skipped : Text → FileResult
  overwritten : Text → FileResult
  unchanged : Text → FileResult

pub data BatchDecision : Type 0 where
  undecided : BatchDecision
  accept_all : BatchDecision
  skip_all : BatchDecision

pub record RenderedFile : Type 0 where
  pub path : Text
  pub content : Text

pub record ApplyOpts : Type 0 where
  pub project_dir : Text
  pub overwrite : Bool
  pub interactive : Bool

-- A file of the disk: text, bytes that are no UTF-8, or one that cannot be read.
pub data File : Type 0 where
  readable : Text → File
  binary : File
  unreadable : File

-- What `std::fs::write` does: it writes the file, or it fails, and leaves the disk as it was or, since
-- it empties the file first, something else in its place.
pub data WriteResult : Type 0 where
  complete : WriteResult
  refused : WriteResult
  interrupted : File → WriteResult

-- What a call ends with: a value, an error or a panic.
pub data Outcome (A : Type 0) : Type 0 where
  done : A → Outcome A
  failed : Text → Outcome A
  panicked : Outcome A

pub record State : Type 0 where
  pub disk : Map File
  pub keys : List ℕ
  pub batch : BatchDecision

-- `Path::join`, what a write of a text to a path does, `open_in_editor`, `merge_toml` and `merge_yaml`.
pub record World : Type 0 where
  pub join : Text → Text → Text
  pub fs_write : Text → Text → WriteResult
  pub open_in_editor : Text → Text → Result Text Text
  pub merge_toml : Text → Text → Option (Result Text Text)
  pub merge_yaml : Text → Text → Result Text Text

abbrev pub M : Type 0 → Type 0
M A = State → Outcome A × State

abbrev pub and_then : {A B : Type 0} → Outcome A × State → (A → M B) → Outcome B × State
and_then (done a, s) f = f a s
and_then (failed e, s) f = (failed e, s)
and_then (panicked, s) f = (panicked, s)

infixl 5 ◌>>=◌ ◌>>◌
abbrev pub ◌>>=◌ : {A B : Type 0} → M A → (A → M B) → M B
◌>>=◌ m f s = and_then (m s) f

abbrev pub ◌>>◌ : {B : Type 0} → M (Unit {0}) → M B → M B
m >> k = m >>= λ _. k

abbrev pub pure : {A : Type 0} → A → M A
pure a s = (done a, s)

abbrev pub fail : {A : Type 0} → Text → M A
fail e s = (failed e, s)

abbrev pub set_batch : BatchDecision → M (Unit {0})
set_batch b s = (done tt, record s { batch = b })

-- `?` on the result of a merge of documents, which may panic.
abbrev pub from_merge : Option (Result Text Text) → M Text
from_merge none s = (panicked, s)
from_merge (some (ok t)) s = (done t, s)
from_merge (some (err e)) s = (failed e, s)

abbrev pub from_result : Result Text Text → M Text
from_result (ok t) s = (done t, s)
from_result (err e) s = (failed e, s)

abbrev pub is_accept_all : BatchDecision → Bool
is_accept_all accept_all = true
is_accept_all _ = false

abbrev pub is_skip_all : BatchDecision → Bool
is_skip_all skip_all = true
is_skip_all _ = false

abbrev pub put : Text → File → State → State
put dest file s = record s { disk = Map.insert dest file s.disk }

abbrev pub write_ended : Text → Text → State → WriteResult → Outcome (Unit {0}) × State
write_ended dest content s complete = (done tt, put dest (readable content) s)
write_ended dest content s refused = (failed (chars "failed to write " ++ dest), s)
write_ended dest content s (interrupted file) =
    (failed (chars "failed to write " ++ dest), put dest file s)

module _ (world : World) where
  -- `std::fs::write`, of a path below the project.
  unfoldable pub write : Text → Text → M (Unit {0})
  write dest content s = write_ended dest content s (world.fs_write dest content)

  -- The prompt of a plain file, for the keys that are typed. The end of them is a failed read.
  unfoldable pub prompt_plain : Text → Text → Text → List ℕ → M FileResult
  unfolding write
  prompt_plain dest rel_path content [] s =
      (failed (chars "failed to read key"), record s { keys = [] })
  prompt_plain dest rel_path content (key ∷ keys) s =
      let again = prompt_plain dest rel_path content keys s in
      let s' = record s { keys = keys } in
      if key == b's'
      then (done (skipped rel_path), s')
      else if key == b'o'
      then (do write dest content; pure (overwritten rel_path)) s'
      else if key == b'S'
      then (do set_batch skip_all; pure (skipped rel_path)) s'
      else if key == b'O'
      then (do set_batch accept_all; write dest content; pure (overwritten rel_path)) s'
      else again

  unfoldable pub resolve_plain_conflict : ApplyOpts → Text → Text → Text → M FileResult
  unfolding prompt_plain write
  resolve_plain_conflict opts dest rel_path content s =
      if opts.overwrite || is_accept_all s.batch
      then (do write dest content; pure (overwritten rel_path)) s
      else if not opts.interactive || is_skip_all s.batch
      then (done (skipped rel_path), s)
      else prompt_plain dest rel_path content s.keys s

  -- The prompt of a merged file; an edit changes what is written.
  unfoldable pub prompt_structured : Text → Text → Text → List ℕ → M FileResult
  unfolding write
  prompt_structured dest rel_path content [] s =
      (failed (chars "failed to read key"), record s { keys = [] })
  prompt_structured dest rel_path content (key ∷ keys) s =
      let again = prompt_structured dest rel_path content keys s in
      let edited =
        and_then (from_result (world.open_in_editor content rel_path) (record s { keys = keys }))
          (λ content' s'. prompt_structured dest rel_path content' keys s') in
      let s' = record s { keys = keys } in
      if key == b'a'
      then (do write dest content; pure (merged rel_path)) s'
      else if key == b's'
      then (done (skipped rel_path), s')
      else if key == b'e'
      then edited
      else if key == b'A'
      then (do set_batch accept_all; write dest content; pure (merged rel_path)) s'
      else if key == b'S'
      then (do set_batch skip_all; pure (skipped rel_path)) s'
      else again

  unfoldable pub resolve_structured_merge : ApplyOpts → Text → Text → Text → Text → M FileResult
  unfolding prompt_structured write
  resolve_structured_merge opts dest rel_path existing content s =
      if text_eq content existing
      then (done (unchanged rel_path), s)
      else if not opts.interactive || is_accept_all s.batch
      then (do write dest content; pure (merged rel_path)) s
      else if is_skip_all s.batch
      then (done (skipped rel_path), s)
      else prompt_structured dest rel_path content s.keys s

  -- A file that is there and is text.
  unfoldable pub apply_to_text :
      MergeStrategy → ApplyOpts → RenderedFile → Text → Text → M FileResult
  unfolding resolve_structured_merge resolve_plain_conflict
  apply_to_text toml opts file dest existing = do
    content ← from_merge (world.merge_toml existing file.content)
    resolve_structured_merge opts dest file.path existing content
  apply_to_text yaml opts file dest existing = do
    content ← from_result (world.merge_yaml existing file.content)
    resolve_structured_merge opts dest file.path existing content
  apply_to_text plain opts file dest existing =
      resolve_plain_conflict opts dest file.path file.content

  abbrev pub apply_to : ApplyOpts → RenderedFile → Text → Option File → M FileResult
  apply_to opts file dest none = do write dest file.content; pure (created file.path)
  apply_to opts file dest (some (readable existing)) =
      apply_to_text (strategy_for file.path) opts file dest existing
  apply_to opts file dest (some binary) = resolve_plain_conflict opts dest file.path file.content
  apply_to opts file dest (some unreadable) = fail (chars "failed to read " ++ dest)

  -- One round of the loop over the files.
  unfoldable pub apply_file : ApplyOpts → RenderedFile → M FileResult
  unfolding apply_to_text write resolve_plain_conflict strategy_for
  apply_file opts file s =
      let dest = world.join opts.project_dir file.path in
      apply_to opts file dest (Map.get dest s.disk) s

  unfoldable pub apply_files : ApplyOpts → List RenderedFile → M (List FileResult)
  unfolding apply_file
  apply_files opts [] = pure []
  apply_files opts (file ∷ files) = do
    result ← apply_file opts file
    results ← apply_files opts files
    pure (result ∷ results)

  -- No batch decision is taken at the start.
  unfoldable pub apply_rendered_files : List RenderedFile → ApplyOpts → M (List FileResult)
  unfolding apply_files
  apply_rendered_files files opts s = apply_files opts files (record s { batch = undecided })
