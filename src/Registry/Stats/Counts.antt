-- ===== src/Registry/Stats/Counts.antt =====
-- What the counters of a mirror count.
use pulld.Base.{
  ℕ, suc, ◌+◌, ◌%◌, ◌≤◌, ◌<◌, ◌≡◌, refl, ap, Bool, false, ◌||◌, ◌&&◌, not, some, List, [], ◌∷◌,
  arith, Bool-cases, inl, inr, unwrap_or, is_some, if◌then◌else◌,
}
use pulld.Text.{Text, text_eq}
use pulld.Text.Laws.{text_eq_iff}
use pulld.Registry.Stats.{
  Float, StatsUpdate, u32_modulus, MirrorStats, default, Stats, get_stats, modify_entry,
  apply_update, update_stats,
}

module _ (X : Float) where
  -- A changed entry is found changed, and every other entry as it was.
  pub get_stats-modify_entry :
      (f : MirrorStats X → MirrorStats X) (stats : Stats X) (m j : Text)
      → get_stats X (modify_entry X f stats m) j ≡ (
          if text_eq m j
          then some (f (unwrap_or (get_stats X stats m) (default X)))
          else get_stats X stats j)
  unfolding get_stats modify_entry
  get_stats-modify_entry f [] m j = refl
  get_stats-modify_entry f ((k, s) ∷ stats) m j =
      ground (
        arith,
        text_eq_iff k m,
        text_eq_iff k j,
        text_eq_iff m j,
        get_stats-modify_entry f stats m j,
      )

  -- The updates in turn, each at its time.
  abbrev pub run : List (ℕ × StatsUpdate) → Stats X → Stats X
  run [] stats = stats
  run ((now, u) ∷ us) stats = run us (update_stats X now stats u)

  abbrev pub entry : Stats X → Text → MirrorStats X
  entry stats m = unwrap_or (get_stats X stats m) (default X)

abbrev pub successes : Text → List (ℕ × StatsUpdate) → ℕ
successes m [] = 0
successes m ((now, u) ∷ us) =
    if text_eq u.mirror m && u.success then suc (successes m us) else successes m us

abbrev pub failures : Text → List (ℕ × StatsUpdate) → ℕ
failures m [] = 0
failures m ((now, u) ∷ us) =
    if text_eq u.mirror m && not u.success then suc (failures m us) else failures m us

abbrev pub mentions : Text → List (ℕ × StatsUpdate) → Bool
mentions m [] = false
mentions m ((now, u) ∷ us) = text_eq u.mirror m || mentions m us

module _ (X : Float) where
  apply_update-counts :
      (now : ℕ) (u : StatsUpdate) (s : MirrorStats X)
      → let t = apply_update X now u s in
        (t.success_count
          ≡ (if u.success then (s.success_count + 1) % u32_modulus else s.success_count))
        × (t.error_count ≤ (if u.success then s.error_count else s.error_count + 1))
  unfolding apply_update
  apply_update-counts now u s = ground arith

  update_stats_lem :
      (now : ℕ) (stats : Stats X) (u : StatsUpdate)
      → update_stats X now stats u ≡ modify_entry X (apply_update X now u) stats u.mirror
  unfolding update_stats
  update_stats_lem now stats u = refl

  -- One update, seen at any mirror.
  step-counts :
      (m : Text) (now : ℕ) (u : StatsUpdate) (stats : Stats X)
      → let t = entry X (update_stats X now stats u) m in
        (t.success_count ≡ (
          if text_eq u.mirror m && u.success
          then ((entry X stats m).success_count + 1) % u32_modulus
          else (entry X stats m).success_count))
        × (t.error_count ≤ (
            if text_eq u.mirror m && not u.success
            then (entry X stats m).error_count + 1
            else (entry X stats m).error_count))
        × (is_some (get_stats X (update_stats X now stats u) m)
            ≡ (is_some (get_stats X stats m) || text_eq u.mirror m))
  step-counts m now u stats = elim (Bool-cases (text_eq u.mirror m)) [
    | inl e ↦
        let same = ap (entry X stats) ((text_eq_iff u.mirror m).0 e) in
        let (s, f) = apply_update-counts now u (entry X stats u.mirror) in
        rw (update_stats_lem now stats u, get_stats-modify_entry, e)
          (ground arith, ground arith, ground arith)
    | inr e ↦
        rw (update_stats_lem now stats u, get_stats-modify_entry, e)
          (ground arith, ground arith, ground arith)
  ]

  step-lt :
      (m : Text) (now : ℕ) (u : StatsUpdate) (stats : Stats X)
      → (entry X stats m).success_count < u32_modulus
      → (entry X (update_stats X now stats u) m).success_count < u32_modulus
  step-lt m now u stats h = ground (arith, (step-counts m now u stats).0)

  run-counts :
      (m : Text) (us : List (ℕ × StatsUpdate)) (stats : Stats X)
      → (entry X stats m).success_count < u32_modulus
      → let t = entry X (run X us stats) m in
        (t.success_count ≡ ((entry X stats m).success_count + successes m us) % u32_modulus)
        × (t.error_count ≤ (entry X stats m).error_count + failures m us)
        × (is_some (get_stats X (run X us stats) m)
            ≡ (is_some (get_stats X stats m) || mentions m us))
  run-counts m [] stats h = (omega arith, omega arith, ground arith)
  run-counts m ((now, u) ∷ us) stats h =
      let (grown, kept, ever) =
        run-counts m us (update_stats X now stats u) (step-lt m now u stats h) in
      let (s, e, found) = step-counts m now u stats in (ground arith, ground arith, ground arith)

  -- After any updates from an empty table, a mirror's successes are counted exactly, up to the
  -- width of the counter; its errors are at most its failed requests; and it has an entry exactly
  -- if an update named it.
  pub run-counts_empty :
      (m : Text) (us : List (ℕ × StatsUpdate))
      → let t = entry X (run X us []) m in
        (t.success_count ≡ successes m us % u32_modulus)
        × (t.error_count ≤ failures m us)
        × (is_some (get_stats X (run X us []) m) ≡ mentions m us)
  unfolding get_stats default
  run-counts_empty m us =
      let (s, e, f) = run-counts m us [] (omega arith) in (ground arith, ground arith, ground arith)
