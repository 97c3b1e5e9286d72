-- ===== src/Cli/Deps/Idempotent.antt =====
-- Syncing a dependency a second time changes nothing.
use battery_pack.Prelude.{
  null, ◌≡◌, refl, sym, ◌∙◌, ap, subst, inl, inr, ◌∈◌, arith, Bool-cases, Text, chars, text_eq,
  text_eq_refl, text_cmp, filter,
}
use battery_pack.Prelude.{
  Bool, true, false, not, Option, none, some, List, [], ◌∷◌, ◌++◌, if◌then◌else◌,
}
use battery_pack.Prelude.Set
use battery_pack.Manifest.Types.{CrateSpec}
use battery_pack.Cli.Toml.{
  Item, Table, string, boolean, array, inline_table, table, other_item, get, insert,
}
use battery_pack.Cli.Toml.Lookup.{get-insert, get-insert_same, insert-get, strings-to_array}
use battery_pack.Cli.Deps.Additive.{existing_features-insert, null-nil}
use battery_pack.Cli.Deps.{
  Semver, detailed, add_dep_to_table, Synced, parse_lenient, upgrade_or, should_upgrade_version,
  bumps, sync_string, bump_at, sync_version, existing_features, missing_features, sync_features,
  sync_fields, sync_existing, sync_dep_in_table,
}

filter-none :
    {A : Type 0} (p : A → Bool) (xs : List A) → ((x : A) → x ∈ xs → p x ≡ false) → filter p xs ≡ []
filter-none p [] h = refl
filter-none p (x ∷ xs) h = rw (h x (inl refl)) (filter-none p xs (λ y m. h y (inr m)))

contains-filter :
    (p : Text → Bool) (xs : List Text) (x : Text)
    → x ∈ xs
    → p x ≡ true
    → Set.contains x (filter p xs) ≡ true
unfolding Set.contains
contains-filter p [] x m h = absurd m
contains-filter p (y ∷ xs) x (inl e) h = rw (← e) (rw h (rw (text_eq_refl x) refl))
contains-filter p (y ∷ xs) x (inr m) h = ground (arith, contains-filter p xs x m h)

module _ (semver : Semver) (irreflexive : (v : semver.Version) → semver.greater v v ≡ false)
    (spec : CrateSpec) where
  upgrade_or_self : (o : Option semver.Version) → upgrade_or semver o o false ≡ false
  upgrade_or_self none = refl
  upgrade_or_self (some v) = irreflexive v

  bumps_own : bumps semver spec spec.version ≡ false
  unfolding bumps should_upgrade_version
  bumps_own =
      let same : should_upgrade_version semver spec.version spec.version ≡ false =
        rw (text_eq_refl spec.version) (upgrade_or_self (parse_lenient semver spec.version)) in
      ground (arith, same)

  -- The version is not one that the specification bumps.
  abbrev Fresh : Table → Type 0
  Fresh t = (v : Text) → get (chars "version") t ≡ some (string v) → bumps semver spec v ≡ false

  string_eq : {v w : Text} → ◌≡◌ {A = Option Item} (some (string v)) (some (string w)) → v ≡ w
  string_eq e = cc e

  sync_version-Fresh : (t : Table) → Fresh t → sync_version semver spec t ≡ (t, false)
  unfolding sync_version
  sync_version-Fresh t h = by_item (get (chars "version") t) refl
    where
      by_item :
          (o : Option Item) → get (chars "version") t ≡ o → bump_at semver spec o t ≡ (t, false)
      by_item none e = refl
      by_item (some (string v)) e = rw (h v e) refl
      by_item (some (boolean b)) e = refl
      by_item (some (array es)) e = refl
      by_item (some (inline_table f)) e = refl
      by_item (some (table f)) e = refl
      by_item (some (other_item p)) e = refl

  Fresh-sync_version : (t : Table) → Fresh (sync_version semver spec t).0
  unfolding sync_version
  Fresh-sync_version t = by_item (get (chars "version") t) refl
    where
      no_string :
          (o : Option Item)
          → get (chars "version") t ≡ o
          → ((v : Text) → o ≡ some (string v) → bumps semver spec v ≡ false)
          → Fresh t
      no_string o e h v q = h v (sym e ∙ q)

      by_item : (o : Option Item) → get (chars "version") t ≡ o → Fresh (bump_at semver spec o t).0
      by_item none e = no_string none e (λ v q. cc q)
      by_item (some (string w)) e = elim (Bool-cases (bumps semver spec w)) [
        | inl up ↦ rw up (λ v q.
            rw (← string_eq (sym (get-insert_same (chars "version") (string spec.version) t) ∙ q))
              bumps_own)
        | inr keep ↦ rw keep (no_string (some (string w)) e (λ v q. rw (← string_eq q) keep))
      ]
      by_item (some (boolean b)) e = no_string _ e (λ v q. cc q)
      by_item (some (array es)) e = no_string _ e (λ v q. cc q)
      by_item (some (inline_table f)) e = no_string _ e (λ v q. cc q)
      by_item (some (table f)) e = no_string _ e (λ v q. cc q)
      by_item (some (other_item p)) e = no_string _ e (λ v q. cc q)

  Fresh-insert_features : (t : Table) (x : Item) → Fresh t → Fresh (insert (chars "features") x t)
  unfolding text_eq text_cmp
  Fresh-insert_features t x h v q =
      h v (sym (get-insert (chars "features") (chars "version") x t) ∙ q)

  Complete-of :
      (t : Table) (fs : List Text)
      → existing_features t ≡ fs ++ filter (λ feat. not (Set.contains feat fs)) spec.features
      → missing_features spec t ≡ []
  unfolding missing_features
  Complete-of t fs e = rw e (
      filter-none _ spec.features (λ f m. ground (
        arith,
        Set.contains-append f fs (filter (λ (g : Text). not (Set.contains g fs)) spec.features),
        contains-filter (λ (g : Text). not (Set.contains g fs)) spec.features f m,
      )))

  Complete-sync_features : (t : Table) → missing_features spec (sync_features spec t).0 ≡ []
  unfolding sync_features
  Complete-sync_features t = elim (Bool-cases (null (missing_features spec t))) [
    | inl none_left ↦ rw none_left (null-nil _ none_left)
    | inr some_left ↦ rw some_left (
        Complete-of _ (existing_features t)
          (existing_features-insert t _ ∙ unfold missing_features in refl))
  ]

  Fresh-sync_features : (t : Table) → Fresh t → Fresh (sync_features spec t).0
  unfolding sync_features
  Fresh-sync_features t h = elim (Bool-cases (null (missing_features spec t))) [
    | inl none_left ↦ rw none_left h
    | inr some_left ↦ rw some_left (Fresh-insert_features t _ h)
  ]

  sync_features-Complete :
      (t : Table) → missing_features spec t ≡ [] → sync_features spec t ≡ (t, false)
  unfolding sync_features
  sync_features-Complete t h = rw h refl

  sync_fields-settled :
      (t : Table) → Fresh t → missing_features spec t ≡ [] → sync_fields semver spec t ≡ (t, false)
  unfolding sync_fields
  sync_fields-settled t f c = rw (sync_version-Fresh t f) (rw (sync_features-Complete t c) refl)

  sync_fields_again :
      (t : Table)
      → sync_fields semver spec (sync_fields semver spec t).0
        ≡ ((sync_fields semver spec t).0, false)
  sync_fields_again t =
      sync_fields-settled _ (unfold sync_fields in Fresh-sync_features _ (Fresh-sync_version t))
        (unfold sync_fields in Complete-sync_features (sync_version semver spec t).0)

  inline_eq :
      {f g : Table} → ◌≡◌ {A = Option Item} (some (inline_table f)) (some (inline_table g)) → f ≡ g
  inline_eq e = cc e

  -- The entry is as the specification wants it.
  abbrev Settled : Option Item → Type 0
  Settled none = ⊥
  Settled (some (string v)) = (null spec.features ≡ true) × (bumps semver spec v ≡ false)
  Settled (some (inline_table f)) = sync_fields semver spec f ≡ (f, false)
  Settled (some (table f)) = sync_fields semver spec f ≡ (f, false)
  Settled _ = Unit

  Settled-sync :
      (name : Text) (t : Table) (o : Option Item)
      → get name t ≡ o
      → Settled o
      → sync_dep_in_table semver name spec t ≡ (t, false)
  unfolding sync_dep_in_table sync_existing sync_string
  Settled-sync name t none e h = absurd h
  Settled-sync name t (some (string v)) e h = rw (e, sync_existing) (rw (h.0, h.1) refl)
  Settled-sync name t (some (inline_table f)) e h =
      rw (e, sync_existing)
        (ap (λ (r : Synced). (insert name (inline_table r.0) t, r.1)) h
          ∙ ap (λ (r : Table). (r, false)) (insert-get name (inline_table f) t e))
  Settled-sync name t (some (table f)) e h =
      rw (e, sync_existing)
        (ap (λ (r : Synced). (insert name (table r.0) t, r.1)) h
          ∙ ap (λ (r : Table). (r, false)) (insert-get name (table f) t e))
  Settled-sync name t (some (boolean b)) e h = rw (e, sync_existing) refl
  Settled-sync name t (some (array es)) e h = rw (e, sync_existing) refl
  Settled-sync name t (some (other_item p)) e h = rw (e, sync_existing) refl

  known_complete : (t : Table) → existing_features t ≡ spec.features → missing_features spec t ≡ []
  unfolding missing_features
  known_complete t e =
      rw e (filter-none _ spec.features (λ f m. ap not (Set.contains-mem f spec.features m)))

  -- What `{ version = …, features = … }` with the specification's features is.
  Settled-detailed :
      (version : Text)
      → bumps semver spec version ≡ false
      → Settled (some (detailed (record spec { version = version })))
  unfolding get text_eq text_cmp existing_features
  Settled-detailed version keep =
      sync_fields-settled _
        (λ v q. subst (λ (w : Text). bumps semver spec w ≡ false) (string_eq q) keep)
        (known_complete _ (strings-to_array spec.features))

  Settled-add :
      (name : Text) (version : Text) (t : Table)
      → bumps semver spec version ≡ false
      → Settled (get name (add_dep_to_table name (record spec { version = version }) t))
  unfolding add_dep_to_table
  Settled-add name version t keep = elim (Bool-cases (null spec.features)) [
    | inl plain ↦ rw (plain, get-insert_same name (string version) t) (plain, keep)
    | inr more ↦
        rw (more, get-insert_same name (detailed (record spec { version = version })) t)
          (Settled-detailed version keep)
  ]

  bumped_version :
      (current : Text)
      → bumps semver spec (if bumps semver spec current then spec.version else current) ≡ false
  bumped_version current = elim (Bool-cases (bumps semver spec current)) [
    | inl up ↦ rw up bumps_own
    | inr keep ↦ rw keep keep
  ]

  Settled-sync_string :
      (name current : Text) (t : Table)
      → get name t ≡ some (string current)
      → Settled (get name (sync_string semver name spec current t).0)
  unfolding sync_string
  Settled-sync_string name current t e = elim (Bool-cases (null spec.features)) [
    | inl plain ↦ elim (Bool-cases (bumps semver spec current)) [
      | inl up ↦ rw (plain, up, get-insert_same name (string spec.version) t) (plain, bumps_own)
      | inr keep ↦ rw (plain, keep, e) (plain, keep)
    ]
    | inr more ↦ rw more (Settled-add name _ t (bumped_version current))
  ]

  sync-Settled :
      (name : Text) (t : Table) (o : Option Item)
      → get name t ≡ o
      → Settled (get name (sync_existing semver name spec o t).0)
  unfolding sync_existing
  sync-Settled name t none e = Settled-add name spec.version t bumps_own
  sync-Settled name t (some (string v)) e = Settled-sync_string name v t e
  sync-Settled name t (some (inline_table f)) e =
      rw (get-insert_same name (inline_table (sync_fields semver spec f).0) t) (sync_fields_again f)
  sync-Settled name t (some (table f)) e =
      rw (get-insert_same name (table (sync_fields semver spec f).0) t) (sync_fields_again f)
  sync-Settled name t (some (boolean b)) e = rw e tt
  sync-Settled name t (some (array es)) e = rw e tt
  sync-Settled name t (some (other_item p)) e = rw e tt

-- Syncing a dependency is idempotent, if no version is greater than itself: the second time finds the
-- entry as it should be, and reports no change.
pub sync_dep_in_table_again :
    (semver : Semver)
    → ((v : semver.Version) → semver.greater v v ≡ false)
    → (name : Text) (spec : CrateSpec) (t : Table)
    → let once = (sync_dep_in_table semver name spec t).0 in
      sync_dep_in_table semver name spec once ≡ (once, false)
sync_dep_in_table_again semver irreflexive name spec t =
    Settled-sync semver irreflexive spec name _ _ refl
      (unfold sync_dep_in_table in sync-Settled semver irreflexive spec name t (get name t) refl)
