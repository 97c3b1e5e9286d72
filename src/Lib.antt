-- ===== src/Lib.antt =====
-- A verification of the parts of battery-pack that decide what a battery pack is and what a user gets
-- from it: bphelper-manifest, sectioned-picker, and the parts of bphelper-cli that change a project.
--
-- A battery pack is a crate whose dependencies and Cargo features are curated for others. The crate
-- bphelper-manifest reads one, checks it, resolves active features to crates, and merges the crates
-- of several packs; the command line tools call it. The crate sectioned-picker is the list with
-- sections in which a user checks the crates and features to add. The crate bphelper-cli writes what
-- was chosen: the dependencies into Cargo.toml, the files of a template into the project, merged with
-- those that are there, and into battery-pack.toml which features, dependencies and templates of a
-- pack are in use. Its terminal interface shows the packs and starts these commands.
--
-- Which file models which part:
--   FeatureRef: src/battery-pack/bphelper-manifest/src/feature_ref.rs. An entry of a `[features]`
--     list: `parse`, `dep_name`, `Display` (`to_string`), `Ord` (`cmp`), and the ordered set of
--     references that `cmp` gives (`insert`). RoundTrip: parsing and printing.
--   Glob: `glob_match` and `glob_match_inner` of src/battery-pack/bphelper-manifest/src/lib.rs, for the
--     patterns of hidden crates.
--   Manifest: the rest of src/battery-pack/bphelper-manifest/src/lib.rs.
--     Types: the error type and the data of a pack, with `ActiveFeatures::from` (`from_set`).
--     Report: `ValidationReport` and its methods.
--     Validate: `validate`, `validate_features`, `reference_resolves`, `dfs_feature`. Total, Graph,
--       Acyclic, Cyclic and Exact: what the walk over local features finds.
--     Resolve: `resolve_crates`, `add_default_crates`, `add_feature_crates`, `add_dep`,
--       `resolve_for_features`, `is_hidden`. Total, Induction, Origin, Reach, Exact, Ungated, Loops and
--       Selection: what the resolution contains.
--     Merge: `merge_crate_specs`, `compare_versions`, `merge_dep_kinds`. Kinds, Versions, Summary.
--     Check: `validate_spec` and `validate_categories`. Errors, Rules and Agrees.
--     Disk: `validate_on_disk` and the functions that it calls; Errors.
--     Views: `visible_crates`, `all_crates_with_grouping`, `has_meaningful_choices`,
--       `items_in_category`. Listed: the grouped list.
--     Parse: `package_to_spec`, and `discover_battery_packs` after `cargo metadata` has answered.
--   Picker: src/sectioned-picker/src/state.rs, with the data of src/sectioned-picker/src/lib.rs: the
--     state, `new`, the navigation stops and `section_bounds`. Scroll (moving and the viewport), Toggle,
--     Fold (collapsing and expanding) and Confirm are the operations; Keys is the loop over keys of
--     `run_picker_loop`. Radio, Sections, Results, Viewport, Navigation and Empty hold the laws.
--   Cli: src/battery-pack/bphelper-cli/src.
--     Toml: the documents of toml_edit, as maps; Lookup.
--     Deps: manifest.rs, `write_deps_by_kind` to `sync_dep_in_table`. Additive, Idempotent, Sections.
--     Merge: merge.rs, `merge_toml` (Tables, Documents); Yaml: `merge_yaml` (Maps); Apply:
--       `apply_rendered_files` and the two prompts (Reports, Decided, Untouched).
--     Names: `short_name` and `resolve_crate_name` of registry.rs.
--     Add: commands.rs, `exclusive_siblings`, `validate_exclusive_constraints`, `resolve_add_crates`;
--       Exclusive.
--     State: manifest.rs, battery-pack.toml. Files (the readers and writers of the file), Format
--       (reading what was written), Packs (transactions), Writers, Templates, Removal, Present, Prune and
--       Newer: the writers, by what the readers say afterwards.
--     Tui: the screens of tui/mod.rs. Input: edits of texts by bytes. Keys and Apply: `handle_key`, by
--       the action that it derives from a key and what it does with it, and `process_loading`. IsValid,
--       Actions and Reach: an invariant of all runs. Typing: which keys panic.
--   Prelude: tests on native numbers, strings, and the ordered sets and maps of the standard library.
--
-- How code is modelled. A string is the list of its Unicode scalar values, which has the order that
-- Rust's strings have. A `BTreeSet` or `BTreeMap` is a list in ascending order, with the insertion of
-- the standard library; the laws hold for lists in any order. What a method mutates is passed on as a
-- record: `Walk` for the depth-first walk (the stack and the visited features), `Resolution` for the
-- expansion of features (the result, the features that are being expanded, and the weak references
-- put off to the end), `PickerState` for the picker. An operation of the picker returns `none` where
-- the source panics. The shared helpers of `resolve_crates` and `resolve_for_features` that the source
-- writes out twice (the features' names, `entry(..).or_insert_with(..)`) are one definition here.
--
-- Fuel. The recursions of `dfs_feature` and `add_feature_crates` go along the local features of a
-- pack, which may be cyclic, and take fuel; `none` is its end. `dfs_feature` enters no feature twice,
-- so the number of features and one more is enough; `add_feature_crates` does not enter a feature that
-- is being expanded, so the number of features and two more is enough.
--
-- The command line. A document is an association list in the order of insertion, without
-- formatting; `none` is the panic of an `expect`. The disk is a map from paths to files that are
-- text, not UTF-8 or unreadable, and the keys of a prompt are a list that is read from; its end is
-- a failed read. A write succeeds, or fails and leaves the disk as it was or anything else in the
-- file's place. Fetching and rendering the template of a preview is a parameter, which may panic;
-- that of lists and details of packs is one that gives an answer or an error. The state file is
-- text that the crate toml prints and parses; the model has the documents that serde's attributes
-- stand for. What these libraries, the editor, the network and the rendering of templates do are
-- parameters, and the laws that are needed of them are hypotheses: that toml parses what it
-- printed, that no version is above itself, and that the equality of YAML keys decides it. Messages
-- of errors leave out what they say of paths and causes.
--
-- Not modelled. In bphelper-manifest: `load_metadata` and `parse_battery_pack_from_path`, which run
-- `cargo metadata` and find a path in its answer. What serde_json makes of a package's metadata is a
-- field of the modelled package, and what the file system says of a crate is a parameter. In
-- sectioned-picker: render.rs, the terminal set-up of `run_picker`, the handlers of actions, and
-- `section_hint`, which only words a label. In bphelper-cli: the search for manifests, the registry, the
-- other commands, the rendering of templates, what the terminal interface draws and runs, and completions.
-- The programs around these crates (cargo-bp, cargo-bp-script, mdbook-battery-pack, bphelper-build) and
-- the battery packs themselves.
pub mod Prelude
pub mod FeatureRef
pub mod Glob
pub mod Manifest
pub mod Picker
pub mod Cli
