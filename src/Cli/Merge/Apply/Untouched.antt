-- ===== src/Cli/Merge/Apply/Untouched.antt =====
-- Which files a run leaves alone.
use battery_pack.Prelude.{
  ◌≡◌, refl, sym, ◌∙◌, ap, ◌⊎◌, ◌∈◌, inl, inr, arith, Bool-cases, Text, text_eq, text_eq_iff,
}
use battery_pack.Prelude.{false, some, List, [], ◌∷◌}
use battery_pack.Prelude.Map
use battery_pack.Prelude.Map.{Map}
use battery_pack.Cli.Merge.Apply.{
  plain, strategy_for, FileResult, created, merged, skipped, overwritten, unchanged, undecided,
  RenderedFile, ApplyOpts, File, readable, binary, unreadable, Outcome, done, failed, panicked,
  State, World, pure, and_then, ◌>>=◌, resolve_plain_conflict, apply_to_text, apply_to, apply_file,
  apply_files, apply_rendered_files,
}
use battery_pack.Cli.Merge.Apply.Decided.{apply_file-Heeds}
use battery_pack.Cli.Merge.Apply.Reports.{Reported, apply_file-Reported}

module _ (world : World) where
  apply_then_inv :
      (P : State → Type 0) (opts : ApplyOpts) (files : List RenderedFile)
      (one : Outcome FileResult × State)
      → P one.1
      → ((t : State) → P t → P (apply_files world opts files t).1)
      → P (and_then one (λ r. apply_files world opts files >>= λ rs. pure (r ∷ rs))).1
  apply_then_inv P opts files (failed e, t) h ih = h
  apply_then_inv P opts files (panicked, t) h ih = h
  apply_then_inv P opts files (done r, t) h ih = rest r (apply_files world opts files t) (ih t h)
    where
      rest :
          (r : FileResult) (o : Outcome (List FileResult) × State)
          → P o.1
          → P (and_then o (λ rs. pure (r ∷ rs))).1
      rest r (done rs, u) q = q
      rest r (failed e, u) q = q
      rest r (panicked, u) q = q

  -- What each file keeps, whatever it ends with, the run keeps.
  apply_files_inv :
      (P : State → Type 0) (opts : ApplyOpts) (files : List RenderedFile)
      → ((file : RenderedFile) (t : State)
          → file ∈ files
          → P t
          → P (apply_file world opts file t).1)
      → (s : State) → P s
      → P (apply_files world opts files s).1
  unfolding apply_files
  apply_files_inv P opts [] keep s h = h
  apply_files_inv P opts (file ∷ files) keep s h =
      apply_then_inv P opts files (apply_file world opts file s) (keep file s (inl refl) h)
        (apply_files_inv P opts files (λ f t m. keep f t (inr m)))

elsewhere :
    (p dest : Text) (t : File) (d d' : Map File)
    → text_eq p dest ≡ false
    → d' ≡ Map.insert dest t d
    → Map.get p d' ≡ Map.get p d
elsewhere p dest t d d' other h = rw h (Map.get-insert dest p t d ∙ rw other refl)

-- What stands at a path that the file does not go to.
Reported-elsewhere :
    (world : World) (path content dest p : Text) (d : Map File) (o : Outcome FileResult × State)
    → text_eq p dest ≡ false
    → Reported world path content dest d o
    → Map.get p o.1.disk ≡ Map.get p d
Reported-elsewhere world path content dest p d (done (created q), s) other h =
    elsewhere p dest (readable content) d s.disk other h.1
Reported-elsewhere world path content dest p d (done (overwritten q), s) other h =
    elsewhere p dest (readable content) d s.disk other h.1
Reported-elsewhere world path content dest p d (done (merged q), s) other h =
    elsewhere p dest (readable h.1.0) d s.disk other h.1.1
Reported-elsewhere world path content dest p d (done (skipped q), s) other h = ap (Map.get p) h.1
Reported-elsewhere world path content dest p d (done (unchanged q), s) other h = ap (Map.get p) h.1
Reported-elsewhere world path content dest p d (failed e, s) other (inl h) = ap (Map.get p) h
Reported-elsewhere world path content dest p d (failed e, s) other (inr (text, left, _, h)) =
    elsewhere p dest left d s.disk other h
Reported-elsewhere world path content dest p d (panicked, s) other h = ap (Map.get p) h

-- A file that a run which is neither interactive nor overwrites does not change: one that is no
-- text, or whose name is that of no TOML or YAML file.
abbrev pub IsSpared : File → Text → Type 0
IsSpared binary path = Unit
IsSpared unreadable path = Unit
IsSpared (readable t) path = strategy_for path ≡ plain

module _ (world : World) where
  apply_to-spared :
      (x : File) (opts : ApplyOpts) (file : RenderedFile) (dest : Text) (s : State)
      → opts.overwrite ≡ false
      → opts.interactive ≡ false
      → s.batch ≡ undecided
      → IsSpared x file.path
      → (apply_to world opts file dest (some x) s).1 ≡ s
  unfolding resolve_plain_conflict apply_to_text
  apply_to-spared (readable t) opts file dest s o i b is_plain = rw is_plain (ground arith)
  apply_to-spared binary opts file dest s o i b spared = ground arith
  apply_to-spared unreadable opts file dest s o i b spared = refl

  apply_file-spared :
      (x : File) (opts : ApplyOpts) (file : RenderedFile) (s : State)
      → opts.overwrite ≡ false
      → opts.interactive ≡ false
      → s.batch ≡ undecided
      → Map.get (world.join opts.project_dir file.path) s.disk ≡ some x
      → IsSpared x file.path
      → (apply_file world opts file s).1 ≡ s
  unfolding apply_file
  apply_file-spared x opts file s o i b there spared =
      rw there (apply_to-spared x opts file (world.join opts.project_dir file.path) s o i b spared)

  apply_file-elsewhere :
      (p : Text) (opts : ApplyOpts) (file : RenderedFile) (t : State)
      → text_eq p (world.join opts.project_dir file.path) ≡ false
      → Map.get p (apply_file world opts file t).1.disk ≡ Map.get p t.disk
  apply_file-elsewhere p opts file t other =
      Reported-elsewhere world file.path file.content (world.join opts.project_dir file.path) p
        t.disk (apply_file world opts file t) other (apply_file-Reported world opts file t)

  keeps_disk :
      (x : File) (p : Text) (opts : ApplyOpts) (file : RenderedFile) (t : State)
      → opts.overwrite ≡ false
      → opts.interactive ≡ false
      → (Map.get p t.disk ≡ some x) × (t.batch ≡ undecided)
      → (text_eq p (world.join opts.project_dir file.path) ≡ false) ⊎ IsSpared x file.path
      → Map.get p (apply_file world opts file t).1.disk ≡ some x
  keeps_disk x p opts file t o i h (inl other) = apply_file-elsewhere p opts file t other ∙ h.0
  keeps_disk x p opts file t o i h (inr spared) =
      let dest = world.join opts.project_dir file.path in
      elim (Bool-cases (text_eq p dest)) [
        | inl same ↦
            let there : Map.get dest t.disk ≡ some x =
              sym (ap (λ (q : Text). Map.get q t.disk) ((text_eq_iff p dest).0 same)) ∙ h.0 in
            ap (λ (u : State). Map.get p u.disk)
              (apply_file-spared x opts file t o i h.1 there spared)
            ∙ h.0
        | inr other ↦ apply_file-elsewhere p opts file t other ∙ h.0
      ]

  -- A run that is neither interactive nor overwrites leaves what stands at a path, whatever it ends
  -- with, if each rendered file goes elsewhere or finds there a file that is no text, or is no TOML
  -- or YAML file by its name.
  pub apply_rendered_files-spares :
      (files : List RenderedFile) (opts : ApplyOpts) (s : State) (p : Text) (x : File)
      → opts.overwrite ≡ false
      → opts.interactive ≡ false
      → Map.get p s.disk ≡ some x
      → ((file : RenderedFile)
          → file ∈ files
          → (text_eq p (world.join opts.project_dir file.path) ≡ false) ⊎ IsSpared x file.path)
      → Map.get p (apply_rendered_files world files opts s).1.disk ≡ some x
  unfolding apply_rendered_files
  apply_rendered_files-spares files opts s p x o i there safe =
      (apply_files_inv world (λ t. (Map.get p t.disk ≡ some x) × (t.batch ≡ undecided)) opts files
        keep (record s { batch = undecided }) (there, refl)).0
    where
      keep :
          (file : RenderedFile) (t : State)
          → file ∈ files
          → (Map.get p t.disk ≡ some x) × (t.batch ≡ undecided)
          → (Map.get p (apply_file world opts file t).1.disk ≡ some x)
            × ((apply_file world opts file t).1.batch ≡ undecided)
      keep file t m h = (
        keeps_disk x p opts file t o i h (safe file m),
        (apply_file-Heeds world opts file t (rw i refl)).1 ∙ h.1,
      )
