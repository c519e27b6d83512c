-- ===== src/AdminClient/Metrics.antt =====
-- The metrics of the client for Ganglia, and those of the plugin for collectd.
use mathlib.Core.Path.{subst, sym}
use mathlib.Core.Option.{some-injective}
use mathlib.Core.List.{append-nil, append_assoc}
use dynamictorque.Base.{
  ℕ, ◌+◌, ◌≡◌, refl, ap, ◌∙◌, String, true, Option, none, some, List, [], ◌∷◌, ◌++◌, inl, inr,
  Option-cases, arith, map, to_number,
}
use dynamictorque.Base.Dict.{lookup}
use dynamictorque.Base.Action.{Result, ok, err, and_then, fold_each, for_each, ◌>>◌}
use dynamictorque.Commands.{Node}
use dynamictorque.Center.State.{Center}
use dynamictorque.Info
use dynamictorque.Info.Sums.{none_not_some}
use dynamictorque.Info.{
  CenterInfo, get_info, pbs_cores, np_of, tally, Data, data_of, fetch_info, Value, gauges,
}
use dynamictorque.AdminClient.Console.{Cell, Line, Terminal, print, rpc}
use dynamictorque.AdminClient.Shows.{add_np, add_zone, metric, metrics, show_zones, show_ganglia}

-- The line of a value of the plugin.
abbrev pub line_of : Value → Line
line_of v = elim v.type_instance [ none ↦ [] | some key ↦ Cell.text key ∷ Cell.count v.value ∷ [] ]

abbrev metric_line : String × ℕ → Line
metric_line (key, n) = Cell.text key ∷ Cell.count n ∷ []

added :
    (a b : Option ℕ) (k : ℕ)
    → Info.add_np a b ≡ some k
    → (i : ℕ) × (j : ℕ) × (a ≡ some i) × (b ≡ some j) × (i + j ≡ k)
added none b k h = absurd (none_not_some h)
added (some i) none k h = absurd (none_not_some h)
added (some i) (some j) k h = (i, j, refl, refl, some-injective (i + j) k h)

read_np :
    (o : Option String) (i : ℕ)
    → np_of o ≡ some i
    → (np : String) × (o ≡ some np) × (to_number np ≡ some i)
read_np none i h = absurd (none_not_some h)
read_np (some np) i h = (np, refl, h)

sums_np :
    (nodes : List Node) (n k : ℕ) (t : Terminal)
    → pbs_cores nodes ≡ some k
    → fold_each nodes n add_np t ≡ (ok (n + k), t)
unfolding fold_each
sums_np [] n k t h = ap (λ m. (ok m, t)) (omega (arith, some-injective 0 k h))
sums_np (node ∷ nodes) n k t h =
    let (i, j, e, f, sum) = added (np_of (lookup "np" node)) (pbs_cores nodes) k h in
    let (np, there, number) = read_np (lookup "np" node) i e in
    rw (there, number) (sums_np nodes (n + i) j t f ∙ ap (λ m. (ok m, t)) (omega (arith, sum)))

prints :
    (ms : List (String × ℕ)) (t : Terminal)
    → for_each ms metric t ≡ (ok tt, record t { printed = t.printed ++ map metric_line ms })
unfolding for_each
prints [] t = ap (λ l. (ok tt, record t { printed = l })) (sym (append-nil t.printed))
prints ((key, n) ∷ ms) t =
    prints ms (record t { printed = t.printed ++ (metric_line (key, n) ∷ []) })
    ∙ ap (λ l. (ok tt, record t { printed = l }))
        (append_assoc t.printed (metric_line (key, n) ∷ []) (map metric_line ms))

zones_told :
    (zones : List (Option String × ℕ)) (told : List (String × ℕ)) (t : Terminal)
    → (fold_each zones told add_zone t).1 ≡ t
unfolding fold_each
zones_told [] told t = refl
zones_told ((none, n) ∷ zones) told t = refl
zones_told ((some zone, n) ∷ zones) told t = zones_told zones _ t

ends :
    (r : Result (List (String × ℕ)) × Terminal) (t : Terminal)
    → r.1 ≡ t
    → (rest : List Line) × ((and_then r
          (λ zones. print (Cell.text "zone_stat" ∷ Cell.amounts zones ∷ []))).1.printed
        ≡ t.printed ++ rest)
ends (ok zones, u) t h = (
  (Cell.text "zone_stat" ∷ Cell.amounts zones ∷ []) ∷ [],
  ap (λ v. v.printed ++ ((Cell.text "zone_stat" ∷ Cell.amounts zones ∷ []) ∷ [])) h,
)
ends (err e, u) t h = ([], ap (λ v. v.printed) h ∙ sym (append-nil t.printed))

module _ (info : CenterInfo) (np : ℕ) (t : Terminal) where
  zones_after :
      (x : Result Unit × Terminal) (u : Terminal)
      → x ≡ (ok tt, u)
      → (rest : List Line) × ((and_then x (λ _. show_zones info)).1.printed ≡ u.printed ++ rest)
  unfolding show_zones
  zones_after x u h =
      subst
        (λ y.
          (rest : List Line) × ((and_then y (λ _. show_zones info)).1.printed ≡ u.printed ++ rest))
        (sym h)
        (ends (fold_each (tally _ info.existing_instances []) [] add_zone u) u
          (zones_told (tally _ info.existing_instances []) [] u))

  all_after :
      (x : Result ℕ × Terminal)
      → x ≡ (ok np, t)
      → (rest : List Line) × ((and_then x
            (λ k. for_each (metrics info k) metric >> show_zones info)).1.printed
          ≡ (t.printed ++ map line_of (gauges (data_of info np))) ++ rest)
  all_after x h =
      subst
        (λ y.
          (rest : List Line) × ((and_then y
              (λ k. for_each (metrics info k) metric >> show_zones info)).1.printed
            ≡ (t.printed ++ map line_of (gauges (data_of info np))) ++ rest))
        (sym h) (zones_after (for_each (metrics info np) metric t) _ (prints (metrics info np) t))

reached_ganglia :
    (s : Center) (lines : List Line) (np : ℕ)
    → pbs_cores s.worker_nodes ≡ some np
    → (rest : List Line) × ((show_ganglia
          (record { center = s; reached = true; printed = lines })).1.printed
        ≡ (lines ++ map line_of (gauges (data_of (get_info s) np))) ++ rest)
unfolding show_ganglia rpc get_info
reached_ganglia s lines np h =
    let t : Terminal = record { center = s; reached = true; printed = lines } in
    all_after (get_info s) np t (fold_each s.worker_nodes 0 add_np t)
      (sums_np s.worker_nodes 0 np t h ∙ ap (λ m. (ok m, t)) (omega arith))

-- What is printed when the client starts at `u` with the lines of `t`.
abbrev ShowsFrom : Terminal → Terminal → Data → Type 0
ShowsFrom t u data' =
    (rest : List Line) × ((show_ganglia u).1.printed
      ≡ (t.printed ++ map line_of (gauges data')) ++ rest)

-- The gauges are printed, and perhaps more.
abbrev pub Shows : Terminal → Data → Type 0
Shows t data' =
    (rest : List Line) × ((show_ganglia t).1.printed
      ≡ (t.printed ++ map line_of (gauges data')) ++ rest)

-- On a server that answers, with nodes whose cores can be read, the metrics that the client prints
-- for Ganglia are those that the plugin dispatches to collectd: its gauges, in their order, and
-- behind them only further lines.
pub show_ganglia-gauges :
    (t : Terminal) (data' : Data)
    → t.reached ≡ true
    → fetch_info (some (get_info t.center)) ≡ some data'
    → Shows t data'
unfolding fetch_info get_info
show_ganglia-gauges t data' r h = elim (Option-cases (pbs_cores t.center.worker_nodes)) [
  | inl e ↦ absurd (none_not_some (rw (e, fetch_info) at h))
  | inr (np, e) ↦
      subst (λ d. Shows t d)
        (some-injective (data_of (get_info t.center) np) data' (rw (e, fetch_info) at h))
        (subst (λ u. ShowsFrom t u (data_of (get_info t.center) np))
          (sym (ap (λ b. record t { reached = b }) r)) (reached_ganglia t.center t.printed np e))
]
