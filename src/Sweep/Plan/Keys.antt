-- ===== src/Sweep/Plan/Keys.antt =====
-- The sweep of `build_sweep_runs` as a list of config points, told apart by their keys.
use memsafedb.Prelude.{
  Sublist, ℕ, ◌≡◌, refl, sym, ap, ◌∙◌, true, false, List, [], ◌∷◌, ◌++◌, map, append-nil,
  append_assoc, All, if◌then◌else◌,
}
use memsafedb.Sweep.Specs.{Database, Host, Persistence, SweepSpec}
use memsafedb.Sweep.Plan.{
  Run, Planned, seen_in, get_or_default, sweep_run, add, add_threads, add_working_sets, add_hosts,
  add_persistences, build_sweep_runs,
}
use memsafedb.Sweep.Plan.Fresh.{
  Point, key_at, fresh_points, Distinct, fresh_points-Sublist, fresh_points-Distinct,
  fresh_points-Covered,
}

-- The two arms of the cross that a host is swept over.
abbrev pub thread_arm : Persistence → ℕ → Host → List Point
thread_arm p pivot host =
    map (λ t. record { host = host; threads = t; working_set = pivot; persistence = p })
      host.threads

abbrev pub working_set_arm : Persistence → List ℕ → Host → List Point
working_set_arm p wss host =
    map
      (λ ws. record { host = host; threads = host.thread_pivot; working_set = ws; persistence = p })
      wss

abbrev pub cross : SweepSpec → Persistence → Host → List Point
cross spec p host =
    thread_arm p (get_or_default spec.ws_pivot host.ws_pivot) host
    ++ working_set_arm p (get_or_default spec.ws_values host.ws_values) host

abbrev pub crosses : SweepSpec → Persistence → List Host → List Point
crosses spec p [] = []
crosses spec p (host ∷ hosts) = cross spec p host ++ crosses spec p hosts

abbrev pub points : SweepSpec → List Persistence → List Point
points spec [] = []
points spec (p ∷ ps) = crosses spec p spec.hosts ++ points spec ps

module _ (db : Database) (spec : SweepSpec) where
  abbrev pub run_at : Point → Run
  run_at p = sweep_run db spec p.host p.threads p.working_set p.persistence

  add_points : List Point → Planned → Planned
  add_points [] s = s
  add_points (p ∷ ps) s = add_points ps (add db spec p.host p.threads p.working_set p.persistence s)

  add_points-append :
      (ps qs : List Point) (s : Planned) → add_points (ps ++ qs) s ≡ add_points qs (add_points ps s)
  unfolding add_points
  add_points-append [] qs s = refl
  add_points-append (p ∷ ps) qs s =
      add_points-append ps qs (add db spec p.host p.threads p.working_set p.persistence s)

  add_points-runs :
      (ps : List Point) (s : Planned)
      → (add_points ps s).runs ≡ s.runs ++ map run_at (fresh_points s.seen ps)
  unfolding add_points add fresh_points
  add_points-runs [] s = sym (append-nil s.runs)
  add_points-runs (p ∷ ps) s =
      (elim (seen_in (key_at p) s.seen)
        as (λ b.
          (add_points ps (
            if b
            then s
            else record { runs = s.runs ++ (run_at p ∷ []); seen = key_at p ∷ s.seen })).runs
          ≡ s.runs
            ++ map run_at
                (if b then fresh_points s.seen ps else p ∷ fresh_points (key_at p ∷ s.seen) ps)) [
                  | true ↦ add_points-runs ps s
                  | false ↦
                      add_points-runs ps
                        (record { runs = s.runs ++ (run_at p ∷ []); seen = key_at p ∷ s.seen })
                      ∙ append_assoc s.runs (run_at p ∷ [])
                          (map run_at (fresh_points (key_at p ∷ s.seen) ps))
                ])

  add_threads-points :
      (host : Host) (pivot : ℕ) (p : Persistence) (ts : List ℕ) (s : Planned)
      → add_threads db spec host pivot p ts s
        ≡ add_points
            (map
              (λ t. record { host = host; threads = t; working_set = pivot; persistence = p })
              ts)
            s
  unfolding add_threads add_points
  add_threads-points host pivot p [] s = refl
  add_threads-points host pivot p (t ∷ ts) s =
      add_threads-points host pivot p ts (add db spec host t pivot p s)

  add_working_sets-points :
      (host : Host) (p : Persistence) (wss : List ℕ) (s : Planned)
      → add_working_sets db spec host p wss s ≡ add_points (working_set_arm p wss host) s
  unfolding add_working_sets add_points
  add_working_sets-points host p [] s = refl
  add_working_sets-points host p (ws ∷ wss) s =
      add_working_sets-points host p wss (add db spec host host.thread_pivot ws p s)

  add_cross :
      (p : Persistence) (host : Host) (s : Planned)
      → add_working_sets db spec host p
          (get_or_default spec.ws_values host.ws_values)
          (add_threads db spec host (get_or_default spec.ws_pivot host.ws_pivot) p host.threads s)
        ≡ add_points (cross spec p host) s
  add_cross p host s =
      let arm = thread_arm p (get_or_default spec.ws_pivot host.ws_pivot) host in
      let wss = get_or_default spec.ws_values host.ws_values in
      add_working_sets-points host p wss _
      ∙ ap (add_points (working_set_arm p wss host))
          (add_threads-points host (get_or_default spec.ws_pivot host.ws_pivot) p host.threads s)
      ∙ sym (add_points-append arm (working_set_arm p wss host) s)

  add_hosts-points :
      (p : Persistence) (hosts : List Host) (s : Planned)
      → add_hosts db spec p hosts s ≡ add_points (crosses spec p hosts) s
  unfolding add_hosts add_points
  add_hosts-points p [] s = refl
  add_hosts-points p (host ∷ hosts) s =
      add_hosts-points p hosts _
      ∙ ap (add_points (crosses spec p hosts)) (add_cross p host s)
      ∙ sym (add_points-append (cross spec p host) (crosses spec p hosts) s)

  add_persistences-points :
      (ps : List Persistence) (s : Planned)
      → add_persistences db spec ps s ≡ add_points (points spec ps) s
  unfolding add_persistences add_points
  add_persistences-points [] s = refl
  add_persistences-points (p ∷ ps) s =
      add_persistences-points ps _
      ∙ ap (add_points (points spec ps)) (add_hosts-points p spec.hosts s)
      ∙ sym (add_points-append (crosses spec p spec.hosts) (points spec ps) s)

  build_sweep_runs-points :
      build_sweep_runs db spec ≡ map run_at (fresh_points [] (points spec spec.persistence))
  unfolding build_sweep_runs
  build_sweep_runs-points =
      ap (λ s. s.runs) (add_persistences-points spec.persistence (record { runs = []; seen = [] }))
      ∙ add_points-runs (points spec spec.persistence) (record { runs = []; seen = [] })

-- What a sweep is: some of the points of the crosses in their order, no two with one key, and all
-- points up to their keys.
pub record IsSweep (db : Database) (spec : SweepSpec) (runs : List Run) : Type 0 where
  pub chosen : List Point
  pub their_runs : runs ≡ map (run_at db spec) chosen
  pub in_order : Sublist chosen (points spec spec.persistence)
  pub distinct : Distinct (map key_at chosen)
  pub covered :
      All (λ p. seen_in (key_at p) (map key_at chosen) ≡ true) (points spec spec.persistence)

-- For any specification, `build_sweep_runs` gives the runs of points that its hosts' two arms hold
-- (each thread count at the working-set pivot, each working set at the thread pivot), for each
-- persistence: in the order of the loops, no two of them with equal keys, and each point of the two
-- arms has its key among theirs.
pub build_sweep_runs-IsSweep :
    (db : Database) (spec : SweepSpec) → IsSweep db spec (build_sweep_runs db spec)
unfolding seen_in
build_sweep_runs-IsSweep db spec =
    let all = points spec spec.persistence in
    record {
      chosen = fresh_points [] all;
      their_runs = build_sweep_runs-points db spec;
      in_order = fresh_points-Sublist [] all;
      distinct = fresh_points-Distinct [] all;
      covered = fresh_points-Covered [] all;
    }
