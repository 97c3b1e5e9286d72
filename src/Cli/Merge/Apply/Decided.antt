-- ===== src/Cli/Merge/Apply/Decided.antt =====
-- What is done with the files when no prompt is shown.
use battery_pack.Prelude.{
  ◌≡◌, refl, ◌∙◌, ap, subst, arith, if-cases, all, Text, text_eq, Result, ok, err,
}
use battery_pack.Prelude.{Bool, true, false, not, ◌||◌, Option, none, some, List, [], ◌∷◌}
use battery_pack.Prelude.Map
use battery_pack.Cli.Merge.Apply.{
  MergeStrategy, toml, yaml, plain, strategy_for, FileResult, created, merged, skipped, overwritten,
  unchanged, BatchDecision, undecided, accept_all, skip_all, RenderedFile, ApplyOpts, File,
  readable, binary, unreadable, Outcome, done, failed, panicked, State, World, WriteResult,
  complete, refused, interrupted, write_ended, pure, and_then, ◌>>=◌, is_accept_all, is_skip_all,
  from_merge, from_result, write, resolve_plain_conflict, resolve_structured_merge, apply_to_text,
  apply_to, apply_file, apply_files,
}

-- No prompt is shown: the run is not interactive, or the user has decided for all files.
abbrev pub silent : ApplyOpts → BatchDecision → Bool
silent opts batch = not opts.interactive || (is_accept_all batch || is_skip_all batch)

-- The result fits what was decided. After "accept all" no file is skipped. After "skip all" a file is
-- overwritten only if the options say so, and merged only in a run that is not interactive. With no
-- decision, a file is overwritten only if the options say so, and skipped only if they do not.
abbrev pub honours : ApplyOpts → BatchDecision → FileResult → Bool
honours opts accept_all (skipped p) = false
honours opts skip_all (overwritten p) = opts.overwrite
honours opts skip_all (merged p) = not opts.interactive
honours opts undecided (overwritten p) = opts.overwrite
honours opts undecided (skipped p) = not opts.overwrite
honours opts batch result = true

abbrev honoured : ApplyOpts → BatchDecision → Outcome FileResult → Bool
honoured opts batch (done r) = honours opts batch r
honoured opts batch (failed e) = true
honoured opts batch panicked = true

abbrev pub all_honoured : ApplyOpts → BatchDecision → Outcome (List FileResult) → Bool
all_honoured opts batch (done rs) = all (honours opts batch) rs
all_honoured opts batch (failed e) = true
all_honoured opts batch panicked = true

-- No key is read, the decision stays, and the result fits it.
abbrev pub Heeds : ApplyOpts → State → Outcome FileResult × State → Type 0
Heeds opts s (o, t) = (t.keys ≡ s.keys) × (t.batch ≡ s.batch) × (honoured opts s.batch o ≡ true)

abbrev pub AllHeed : ApplyOpts → State → Outcome (List FileResult) × State → Type 0
AllHeed opts s (o, t) =
    (t.keys ≡ s.keys) × (t.batch ≡ s.batch) × (all_honoured opts s.batch o ≡ true)

module _ (opts : ApplyOpts) (p : Text) where
  overwritten-honours :
      (b : BatchDecision)
      → (opts.overwrite || is_accept_all b) ≡ true
      → honours opts b (overwritten p) ≡ true
  overwritten-honours accept_all h = refl
  overwritten-honours skip_all h = ground arith
  overwritten-honours undecided h = ground arith

  kept-honours :
      (b : BatchDecision)
      → (opts.overwrite || is_accept_all b) ≡ false
      → honours opts b (skipped p) ≡ true
  kept-honours accept_all h = ground arith
  kept-honours skip_all h = refl
  kept-honours undecided h = ground arith

  merged-honours :
      (b : BatchDecision)
      → (not opts.interactive || is_accept_all b) ≡ true
      → honours opts b (merged p) ≡ true
  merged-honours accept_all h = refl
  merged-honours skip_all h = ground arith
  merged-honours undecided h = refl

  skipped-honours : (b : BatchDecision) → is_skip_all b ≡ true → honours opts b (skipped p) ≡ true
  skipped-honours accept_all h = cc h
  skipped-honours skip_all h = refl
  skipped-honours undecided h = cc h

  unchanged-honours : (b : BatchDecision) → honours opts b (unchanged p) ≡ true
  unchanged-honours accept_all = refl
  unchanged-honours skip_all = refl
  unchanged-honours undecided = refl

  created-honours : (b : BatchDecision) → honours opts b (created p) ≡ true
  created-honours accept_all = refl
  created-honours skip_all = refl
  created-honours undecided = refl

module _ (world : World) (opts : ApplyOpts) where
  write-Heeds :
      (dest content : Text) (r : FileResult) (s : State)
      → honours opts s.batch r ≡ true
      → Heeds opts s (and_then (write world dest content s) (λ _. pure r))
  unfolding write
  write-Heeds dest content r s h = ended (world.fs_write dest content)
    where
      ended :
          (w : WriteResult) → Heeds opts s (and_then (write_ended dest content s w) (λ _. pure r))
      ended complete = (refl, refl, h)
      ended refused = (refl, refl, refl)
      ended (interrupted left) = (refl, refl, refl)

  resolve_plain_conflict-Heeds :
      (dest path content : Text) (s : State)
      → silent opts s.batch ≡ true
      → Heeds opts s (resolve_plain_conflict world opts dest path content s)
  unfolding resolve_plain_conflict
  resolve_plain_conflict-Heeds dest path content s h =
      if-cases (Heeds opts s) (opts.overwrite || is_accept_all s.batch)
        (λ every.
          write-Heeds dest content (overwritten path) s
            (overwritten-honours opts path s.batch every))
        λ no.
          if-cases (Heeds opts s) (not opts.interactive || is_skip_all s.batch)
            (λ skip. (refl, refl, kept-honours opts path s.batch no)) λ ask. absurd (ground arith)

  resolve_structured_merge-Heeds :
      (dest path existing content : Text) (s : State)
      → silent opts s.batch ≡ true
      → Heeds opts s (resolve_structured_merge world opts dest path existing content s)
  unfolding resolve_structured_merge
  resolve_structured_merge-Heeds dest path existing content s h =
      if-cases (Heeds opts s) (text_eq content existing)
        (λ same. (refl, refl, unchanged-honours opts path s.batch))
        λ differs.
          if-cases (Heeds opts s) (not opts.interactive || is_accept_all s.batch)
            (λ every.
              write-Heeds dest content (merged path) s (merged-honours opts path s.batch every))
            λ no.
              if-cases (Heeds opts s) (is_skip_all s.batch)
                (λ skip. (refl, refl, skipped-honours opts path s.batch skip))
                λ ask. absurd (ground arith)

  from_merge-Heeds :
      (m : Option (Result Text Text)) (dest path existing : Text) (s : State)
      → silent opts s.batch ≡ true
      → Heeds opts s (
          and_then
            (from_merge m s)
            (λ content. resolve_structured_merge world opts dest path existing content))
  from_merge-Heeds none dest path existing s h = (refl, refl, refl)
  from_merge-Heeds (some (err e)) dest path existing s h = (refl, refl, refl)
  from_merge-Heeds (some (ok content)) dest path existing s h =
      resolve_structured_merge-Heeds dest path existing content s h

  from_result-Heeds :
      (m : Result Text Text) (dest path existing : Text) (s : State)
      → silent opts s.batch ≡ true
      → Heeds opts s (
          and_then
            (from_result m s)
            (λ content. resolve_structured_merge world opts dest path existing content))
  from_result-Heeds (err e) dest path existing s h = (refl, refl, refl)
  from_result-Heeds (ok content) dest path existing s h =
      resolve_structured_merge-Heeds dest path existing content s h

  apply_to_text-Heeds :
      (strategy : MergeStrategy) (file : RenderedFile) (dest existing : Text) (s : State)
      → silent opts s.batch ≡ true
      → Heeds opts s (apply_to_text world strategy opts file dest existing s)
  unfolding apply_to_text
  apply_to_text-Heeds toml file dest existing s h =
      from_merge-Heeds (world.merge_toml existing file.content) dest file.path existing s h
  apply_to_text-Heeds yaml file dest existing s h =
      from_result-Heeds (world.merge_yaml existing file.content) dest file.path existing s h
  apply_to_text-Heeds plain file dest existing s h =
      resolve_plain_conflict-Heeds dest file.path file.content s h

  apply_to-Heeds :
      (o : Option File) (file : RenderedFile) (dest : Text) (s : State)
      → silent opts s.batch ≡ true
      → Heeds opts s (apply_to world opts file dest o s)
  apply_to-Heeds none file dest s h =
      write-Heeds dest file.content (created file.path) s (created-honours opts file.path s.batch)
  apply_to-Heeds (some (readable existing)) file dest s h =
      apply_to_text-Heeds (strategy_for file.path) file dest existing s h
  apply_to-Heeds (some binary) file dest s h =
      resolve_plain_conflict-Heeds dest file.path file.content s h
  apply_to-Heeds (some unreadable) file dest s h = (refl, refl, refl)

  pub apply_file-Heeds :
      (file : RenderedFile) (s : State)
      → silent opts s.batch ≡ true
      → Heeds opts s (apply_file world opts file s)
  unfolding apply_file
  apply_file-Heeds file s h =
      let dest = world.join opts.project_dir file.path in
      apply_to-Heeds (Map.get dest s.disk) file dest s h

  AllHeed-cons :
      (files : List RenderedFile) (s : State) (one : Outcome FileResult × State)
      → Heeds opts s one
      → ((t : State) → t.batch ≡ s.batch → AllHeed opts t (apply_files world opts files t))
      → AllHeed opts s (and_then one (λ r. apply_files world opts files >>= λ rs. pure (r ∷ rs)))
  AllHeed-cons files s (failed e, t) h ih = h
  AllHeed-cons files s (panicked, t) h ih = h
  AllHeed-cons files s (done r, t) h ih = rest (apply_files world opts files t) (ih t h.1)
    where
      rest :
          (o : Outcome (List FileResult) × State)
          → AllHeed opts t o
          → AllHeed opts s (and_then o (λ rs. pure (r ∷ rs)))
      rest (failed e, u) q = (q.0 ∙ h.0, q.1 ∙ h.1, refl)
      rest (panicked, u) q = (q.0 ∙ h.0, q.1 ∙ h.1, refl)
      rest (done rs, u) q = (
        q.0 ∙ h.0,
        q.1 ∙ h.1,
        rw h.2 (subst (λ (b : BatchDecision). all (honours opts b) rs ≡ true) h.1 q.2),
      )

  -- Where no prompt is shown at the start of the loop, since the run is not interactive or the user has
  -- decided for all files, no key is read in the rest of it, the decision stays, and the results fit
  -- it, if there is no error: after "accept all" no file is skipped; after "skip all" a file is
  -- overwritten only if the options say that files are, and merged only if the run is not interactive;
  -- with no decision, a file is overwritten only if the options say so, and skipped only if they do
  -- not.
  pub apply_files-AllHeed :
      (files : List RenderedFile) (s : State)
      → silent opts s.batch ≡ true
      → AllHeed opts s (apply_files world opts files s)
  unfolding apply_files
  apply_files-AllHeed [] s h = (refl, refl, refl)
  apply_files-AllHeed (file ∷ files) s h =
      AllHeed-cons files s (apply_file world opts file s) (apply_file-Heeds file s h)
        (λ t same. apply_files-AllHeed files t (ap (silent opts) same ∙ h))
