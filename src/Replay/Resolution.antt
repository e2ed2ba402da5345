-- ===== src/Replay/Resolution.antt =====
-- Where a fixture is looked for, and that the climb through the directories ends.
use mathlib.Core.Path.{subst}
use evidra_agentgateway_brid.Prelude.{
  ℕ, zero, suc, ◌+◌, ◌≤◌, ◌<◌, String, ◌≡◌, ◌≢◌, refl, ◌∙◌, true, false, ◌||◌, ◌⊎◌, inl, inr,
  Option, some, length, arith, eq_iff, Bool-cases, text_cases,
}
use evidra_agentgateway_brid.Text.{◌⧺◌, codes}
use evidra_agentgateway_brid.Replay.{
  Host, parent, is_top, candidate, climb, climb_from, resolve_fixture_path,
}
use evidra_agentgateway_brid.Replay.Paths.{dir_part, dir_part_cases}

-- What `filepath.Clean` promises: the shortest name of the path, where the empty path is the dot.
pub record CleanLaws (clean : String → String) : Type 0 where
  pub clean-nil : clean "" ≡ "."
  pub clean_shortest :
      (s : String) → s ≢ "" → (clean s ≡ s) ⊎ (length (codes (clean s)) < length (codes s))

module _ {D : Type 0} (host : Host D) where
  -- The directory is reached from the first one through parents, past directories without a go.mod.
  pub data Climb : String → String → Type 0 where
    start : {d e : String} → d ≡ e → Climb d e
    up :
        {d e : String}
        → host.exists (host.join d "go.mod") ≡ false
        → is_top host d ≡ false
        → Climb (parent host d) e
        → Climb d e

  -- The first directory with a go.mod decides, or the path stays as it is if none has one.
  abbrev pub Located : String → String → String → Type 0
  Located d path r =
      (root : String) × Climb d root
      × (((host.exists (host.join root "go.mod") ≡ true) × (r ≡ host.join root path))
          ⊎ ((host.exists (host.join root "go.mod") ≡ false)
              × (is_top host root ≡ true)
              × (r ≡ path)))

  -- What the climb gives, by what the working directory is.
  abbrev pub Climbs : String ⊎ String → String → Option (String ⊎ String) → Type 0
  Climbs wd path o =
      ((e : String) × (wd ≡ inl e) × (o ≡ some (inl ("get working directory: " ⧺ e))))
      ⊎ ((d : String) × (wd ≡ inr d) × ((r : String) × (o ≡ some (inr r)) × Located d path r))

  -- What a path is resolved to, on every branch.
  abbrev pub Resolves : String → Option (String ⊎ String) → Type 0
  Resolves path o =
      (((host.is_abs path || host.exists path) ≡ true) × (o ≡ some (inr path)))
      ⊎ (((host.is_abs path || host.exists path) ≡ false) × Climbs host.getwd path o)

  module _ (laws : CleanLaws host.clean) where
    parent_cases :
        (d : String)
        → (parent host d ≡ d)
          ⊎ ((parent host d ≡ ".") ⊎ (length (codes (parent host d)) < length (codes d)))
    unfolding parent
    parent_cases d = elim (text_cases (dir_part d) "") [
      | inl (t, e) ↦ inr (inl (rw (e, parent) laws.clean-nil))
      | inr (t, n) ↦ elim (laws.clean_shortest (dir_part d) n) [
        | inl c ↦ elim (dir_part_cases d) [ inl p ↦ inl (c ∙ p) | inr p ↦ inr (inr (rw c p)) ]
        | inr c ↦ elim (dir_part_cases d) [
          | inl p ↦
              inr
                (inr (subst (λ z. length (codes (host.clean (dir_part d))) < length (codes z)) p c))
          | inr p ↦ inr (inr (omega arith))
        ]
      ]
    ]

    -- The dot is its own parent.
    parent_dot : parent host "." ≡ "."
    unfolding parent dir_part
    parent_dot = laws.clean-nil

    here_found :
        (fuel : ℕ) (d path : String)
        → host.exists (host.join d "go.mod") ≡ true
        → climb host (suc fuel) d path ≡ some (host.join d path)
    unfolding climb candidate
    here_found fuel d path h = rw h (ground arith)

    at_top :
        (fuel : ℕ) (d path : String)
        → host.exists (host.join d "go.mod") ≡ false
        → is_top host d ≡ true
        → climb host (suc fuel) d path ≡ some path
    unfolding climb
    at_top fuel d path h t = rw (h, t) refl

    further :
        (fuel : ℕ) (d path : String)
        → host.exists (host.join d "go.mod") ≡ false
        → is_top host d ≡ false
        → climb host (suc fuel) d path ≡ climb host fuel (parent host d) path
    unfolding climb
    further fuel d path h t = rw (h, t) refl

    Climbed : ℕ → String → String → Type 0
    Climbed fuel d path = (r : String) × (climb host fuel d path ≡ some r) × Located d path r

    -- One round, where the rest is done if there is one.
    one_round :
        (fuel : ℕ) (d path : String)
        → (is_top host d ≡ false → Climbed fuel (parent host d) path)
        → Climbed (suc fuel) d path
    unfolding Climbed
    one_round fuel d path go = elim (Bool-cases (host.exists (host.join d "go.mod"))) [
      | inl m ↦ (_, here_found fuel d path m, (d, start refl, inl (m, refl)))
      | inr m ↦ elim (Bool-cases (is_top host d)) [
        | inl t ↦ (path, at_top fuel d path m t, (d, start refl, inr (m, t, refl)))
        | inr t ↦
            let (r, e, (root, c, f)) = go t in (r, further fuel d path m t ∙ e, (root, up m t c, f))
      ]
    ]

    own_parent : (d : String) → parent host d ≡ d → is_top host d ≡ true
    unfolding is_top
    own_parent d e = ground (arith, eq_iff (parent host d) d)

    climb_dot : (fuel : ℕ) (path : String) → Climbed (suc fuel) "." path
    climb_dot fuel path = one_round fuel "." path (λ t. absurd (cc (own_parent "." parent_dot)))

    climb_lem : (fuel : ℕ) (d path : String) → length (codes d) + 2 ≤ fuel → Climbed fuel d path
    climb_lem zero d path h = absurd (omega arith)
    climb_lem (suc zero) d path h = absurd (omega arith)
    climb_lem (suc (suc fuel)) d path h = one_round (suc fuel) d path (λ t. elim (parent_cases d) [
      | inl e ↦ absurd (cc (own_parent d e))
      | inr (inl e) ↦ rw e (climb_dot fuel path)
      | inr (inr s) ↦ climb_lem (suc fuel) (parent host d) path (omega arith)
    ])

    climb_from_lem :
        (wd : String ⊎ String) (path : String) → Climbs wd path (climb_from host wd path)
    unfolding climb_from Climbed
    climb_from_lem (inl e) path = inl (e, refl, refl)
    climb_from_lem (inr d) path =
        let (r, e, l) = climb_lem (length (codes d) + 2) d path (omega arith) in
        inr (d, refl, (r, (rw (e, climb_from) refl), l))

    -- Looking for a fixture always ends: a path that is absolute or exists is taken as it is; otherwise
    -- the first directory with a go.mod decides, from the working directory upwards, and where none has
    -- one the path stays as it is. The only error is that there is no working directory.
    pub resolve_fixture_path_lem :
        (path : String) → Resolves (host.clean path) (resolve_fixture_path host path)
    unfolding resolve_fixture_path
    resolve_fixture_path_lem path = elim (Bool-cases (host.is_abs (host.clean path))) [
      | inl a ↦ rw a (inl (refl, refl))
      | inr a ↦ elim (Bool-cases (host.exists (host.clean path))) [
        | inl x ↦ rw (a, x) (inl (refl, refl))
        | inr x ↦ rw (a, x) (inr (refl, climb_from_lem host.getwd (host.clean path)))
      ]
    ]
