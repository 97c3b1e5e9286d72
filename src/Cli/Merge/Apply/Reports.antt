-- ===== src/Cli/Merge/Apply/Reports.antt =====
-- The result of a file tells what was done to the disk.
use battery_pack.Prelude.{ℕ, ◌≡◌, ◌⊎◌, refl, inl, inr, ◌==◌, Text, text_eq, Result, ok, err}
use battery_pack.Prelude.{if-both, not, ◌||◌, Option, none, some, List, [], ◌∷◌}
use battery_pack.Prelude.Map
use battery_pack.Prelude.Map.{Map}
use battery_pack.Cli.Merge.Apply.{
  MergeStrategy, toml, yaml, plain, strategy_for, FileResult, created, merged, skipped, overwritten,
  unchanged, accept_all, RenderedFile, ApplyOpts, File, readable, binary, unreadable, Outcome, done,
  failed, panicked, State, World, WriteResult, complete, refused, interrupted, put, write_ended, M,
  pure, and_then, is_accept_all, is_skip_all, from_merge, from_result, write, prompt_plain,
  resolve_plain_conflict, prompt_structured, resolve_structured_merge, apply_to_text, apply_to,
  apply_file,
}

-- With `d` the disk before, for a file that goes to `dest`: the disk is as before, or a write to `dest`
-- that failed has left something there.
abbrev pub Damaged : World → Text → Map File → Map File → Type 0
Damaged world dest d d' =
    (d' ≡ d)
    ⊎ ((text : Text) × (left : File) × (world.fs_write dest text ≡ interrupted left)
        × (d' ≡ Map.insert dest left d))

-- With `d` the disk before: a created or overwritten file has the rendered content, a merged one has
-- some text, after a skipped or unchanged file or a panic the disk is as before, and after an error it
-- is so unless a write failed halfway.
abbrev pub Reported : World → Text → Text → Text → Map File → Outcome FileResult × State → Type 0
Reported world path content dest d (done (created p), s) =
    (p ≡ path) × (s.disk ≡ Map.insert dest (readable content) d)
Reported world path content dest d (done (overwritten p), s) =
    (p ≡ path) × (s.disk ≡ Map.insert dest (readable content) d)
Reported world path content dest d (done (merged p), s) =
    (p ≡ path) × ((t : Text) × (s.disk ≡ Map.insert dest (readable t) d))
Reported world path content dest d (done (skipped p), s) = (p ≡ path) × (s.disk ≡ d)
Reported world path content dest d (done (unchanged p), s) = (p ≡ path) × (s.disk ≡ d)
Reported world path content dest d (failed e, s) = Damaged world dest d s.disk
Reported world path content dest d (panicked, s) = s.disk ≡ d

module _ (world : World) where
  edited-Reported :
      (dest path rendered : Text) (m : Result Text Text) (s : State) (again : Text → M FileResult)
      → ((content : Text) → Reported world path rendered dest s.disk (again content s))
      → Reported world path rendered dest s.disk (and_then (from_result m s) again)
  edited-Reported dest path rendered (ok content) s again h = h content
  edited-Reported dest path rendered (err e) s again h = inl refl

  -- A write, and the result that is reported if it succeeds.
  write-Reported :
      (dest path rendered content : Text) (r : FileResult) (s : State)
      → Reported world path rendered dest s.disk (done r, put dest (readable content) s)
      → Reported world path rendered dest s.disk
          (and_then (write world dest content s) (λ _. pure r))
  unfolding write
  write-Reported dest path rendered content r s h = ended (world.fs_write dest content) refl
    where
      ended :
          (w : WriteResult)
          → world.fs_write dest content ≡ w
          → Reported world path rendered dest s.disk
              (and_then (write_ended dest content s w) (λ _. pure r))
      ended complete e = h
      ended refused e = inl refl
      ended (interrupted left) e = inr (content, left, e, refl)

  overwrites-Reported :
      (dest path content : Text) (s : State)
      → Reported world path content dest s.disk
          (and_then (write world dest content s) (λ _. pure (overwritten path)))
  overwrites-Reported dest path content s =
      write-Reported dest path content content (overwritten path) s (refl, refl)

  merges-Reported :
      (dest path rendered content : Text) (s : State)
      → Reported world path rendered dest s.disk
          (and_then (write world dest content s) (λ _. pure (merged path)))
  merges-Reported dest path rendered content s =
      write-Reported dest path rendered content (merged path) s (refl, (content, refl))

  prompt_plain-Reported :
      (dest path content : Text) (keys : List ℕ) (s : State)
      → Reported world path content dest s.disk (prompt_plain world dest path content keys s)
  unfolding prompt_plain
  prompt_plain-Reported dest path content [] s = inl refl
  prompt_plain-Reported dest path content (key ∷ keys) s =
      let s' = record s { keys = keys } in
      let R = λ (r : Outcome FileResult × State). Reported world path content dest s.disk r in
      if-both R (key == b's') (refl, refl)
        (if-both R (key == b'o') (overwrites-Reported dest path content s') (
          if-both R (key == b'S') (refl, refl)
            (if-both R (key == b'O')
              (overwrites-Reported dest path content (record s' { batch = accept_all }))
              (prompt_plain-Reported dest path content keys s))))

  resolve_plain_conflict-Reported :
      (opts : ApplyOpts) (dest path content : Text) (s : State)
      → Reported world path content dest s.disk
          (resolve_plain_conflict world opts dest path content s)
  unfolding resolve_plain_conflict
  resolve_plain_conflict-Reported opts dest path content s =
      let R = λ (r : Outcome FileResult × State). Reported world path content dest s.disk r in
      if-both R (opts.overwrite || is_accept_all s.batch) (overwrites-Reported dest path content s)
        (if-both R (not opts.interactive || is_skip_all s.batch) (refl, refl)
          (prompt_plain-Reported dest path content s.keys s))

  -- The content that a merge writes may be edited, so it does not matter which it is.
  prompt_structured-Reported :
      (dest path rendered content : Text) (keys : List ℕ) (s : State)
      → Reported world path rendered dest s.disk (prompt_structured world dest path content keys s)
  unfolding prompt_structured
  prompt_structured-Reported dest path rendered content [] s = inl refl
  prompt_structured-Reported dest path rendered content (key ∷ keys) s =
      let s' = record s { keys = keys } in
      let R = λ (r : Outcome FileResult × State). Reported world path rendered dest s.disk r in
      if-both R (key == b'a') (merges-Reported dest path rendered content s') (
        if-both R (key == b's') (refl, refl)
          (if-both R (key == b'e')
            (edited-Reported dest path rendered (world.open_in_editor content path) s' _
              (λ content'. prompt_structured-Reported dest path rendered content' keys s'))
            (if-both R (key == b'A')
              (merges-Reported dest path rendered content (record s' { batch = accept_all }))
              (if-both R (key == b'S') (refl, refl)
                (prompt_structured-Reported dest path rendered content keys s)))))

  resolve_structured_merge-Reported :
      (opts : ApplyOpts) (dest path rendered existing content : Text) (s : State)
      → Reported world path rendered dest s.disk
          (resolve_structured_merge world opts dest path existing content s)
  unfolding resolve_structured_merge
  resolve_structured_merge-Reported opts dest path rendered existing content s =
      let R = λ (r : Outcome FileResult × State). Reported world path rendered dest s.disk r in
      if-both R (text_eq content existing) (refl, refl)
        (if-both R (not opts.interactive || is_accept_all s.batch)
          (merges-Reported dest path rendered content s)
          (if-both R (is_skip_all s.batch) (refl, refl)
            (prompt_structured-Reported dest path rendered content s.keys s)))

  from_merge-Reported :
      (m : Option (Result Text Text)) (opts : ApplyOpts) (dest path rendered existing : Text)
      (s : State)
      → Reported world path rendered dest s.disk (
          and_then
            (from_merge m s)
            (λ content. resolve_structured_merge world opts dest path existing content))
  from_merge-Reported none opts dest path rendered existing s = refl
  from_merge-Reported (some (err e)) opts dest path rendered existing s = inl refl
  from_merge-Reported (some (ok content)) opts dest path rendered existing s =
      resolve_structured_merge-Reported opts dest path rendered existing content s

  from_result-Reported :
      (m : Result Text Text) (opts : ApplyOpts) (dest path rendered existing : Text) (s : State)
      → Reported world path rendered dest s.disk (
          and_then
            (from_result m s)
            (λ content. resolve_structured_merge world opts dest path existing content))
  from_result-Reported (err e) opts dest path rendered existing s = inl refl
  from_result-Reported (ok content) opts dest path rendered existing s =
      resolve_structured_merge-Reported opts dest path rendered existing content s

  apply_to_text-Reported :
      (strategy : MergeStrategy) (opts : ApplyOpts) (file : RenderedFile) (dest existing : Text)
      (s : State)
      → Reported world file.path file.content dest s.disk
          (apply_to_text world strategy opts file dest existing s)
  unfolding apply_to_text
  apply_to_text-Reported toml opts file dest existing s =
      from_merge-Reported (world.merge_toml existing file.content) opts dest file.path file.content
        existing s
  apply_to_text-Reported yaml opts file dest existing s =
      from_result-Reported (world.merge_yaml existing file.content) opts dest file.path file.content
        existing s
  apply_to_text-Reported plain opts file dest existing s =
      resolve_plain_conflict-Reported opts dest file.path file.content s

  apply_to-Reported :
      (o : Option File) (opts : ApplyOpts) (file : RenderedFile) (dest : Text) (s : State)
      → Reported world file.path file.content dest s.disk (apply_to world opts file dest o s)
  apply_to-Reported none opts file dest s =
      write-Reported dest file.path file.content file.content (created file.path) s (refl, refl)
  apply_to-Reported (some (readable existing)) opts file dest s =
      apply_to_text-Reported (strategy_for file.path) opts file dest existing s
  apply_to-Reported (some binary) opts file dest s =
      resolve_plain_conflict-Reported opts dest file.path file.content s
  apply_to-Reported (some unreadable) opts file dest s = inl refl

  -- The result of a file has its path and tells what was done to the disk, however the user answers:
  -- a created or overwritten file has the rendered content, a merged file has some text, every other
  -- file is as before, and so is the whole disk after a skipped or unchanged file or a panic. After an
  -- error the disk is as before too, unless a write to the file's place failed and left something there.
  pub apply_file-Reported :
      (opts : ApplyOpts) (file : RenderedFile) (s : State)
      → Reported world file.path file.content
          (world.join opts.project_dir file.path)
          s.disk
          (apply_file world opts file s)
  unfolding apply_file
  apply_file-Reported opts file s =
      let dest = world.join opts.project_dir file.path in
      apply_to-Reported (Map.get dest s.disk) opts file dest s
