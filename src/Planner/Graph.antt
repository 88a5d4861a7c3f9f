-- ===== src/Planner/Graph.antt =====
-- The structure of the task graph that planner/src/graph.ts builds.
use oh_my_pm.Common.{
  ◌∙◌, ℕ, ◌+◌, ◌≡◌, refl, ap, subst, sym, true, List, [], ◌∷◌, ◌++◌, map, All, append-nil,
  append_assoc, arith,
}
use oh_my_pm.Common.Text.{Text, text_eq_refl, includes}
use oh_my_pm.Common.Sets.{includes-append}
use oh_my_pm.Common.Json.{Json}
use oh_my_pm.Planner.{
  IntentCategory, ProviderRequest, TaskNode, PlannerHost, final_node_id, provider_nodes,
  provider_node_id, final_node, build_task_graph, collect_planner_node_ids,
}

-- Each node depends only on nodes that stand before it.
abbrev pub IsOrdered : List Text → List TaskNode → Type 0
IsOrdered seen [] = Unit
IsOrdered seen (n ∷ ns) =
    All (λ d. includes seen d ≡ true) n.depends_on × IsOrdered (seen ++ n.id ∷ []) ns

-- What the last node of a graph depends on.
abbrev pub last_depends : List TaskNode → List Text
last_depends [] = []
last_depends (n ∷ []) = n.depends_on
last_depends (n ∷ m ∷ ns) = last_depends (m ∷ ns)

-- The ids of the providers' nodes, counted from an index.
unfoldable pub node_ids : PlannerHost → ℕ → List ProviderRequest → List Text
node_ids host index [] = []
node_ids host index (r ∷ rs) = provider_node_id host index r ∷ node_ids host (index + 1) rs

All-includes : (seen ids : List Text) → All (λ d. includes (seen ++ ids) d ≡ true) ids
unfolding includes
All-includes seen [] = tt
All-includes seen (d ∷ ids) = (
  ground (arith, includes-append seen (d ∷ ids) d, text_eq_refl d),
  subst (λ all. All (λ e. includes all e ≡ true) ids) (append_assoc seen (d ∷ []) ids)
      (All-includes (seen ++ d ∷ []) ids),
)

module _ (host : PlannerHost) (intent : IntentCategory) (request : Text) (locale : Json) where
  map-provider_nodes :
      (index : ℕ) (rs : List ProviderRequest)
      → map (λ n. n.id) (provider_nodes host index rs) ≡ node_ids host index rs
  unfolding provider_nodes node_ids
  map-provider_nodes index [] = refl
  map-provider_nodes index (r ∷ rs) =
      ap (λ ids. provider_node_id host index r ∷ ids) (map-provider_nodes (index + 1) rs)

  IsOrdered-provider_nodes :
      (seen : List Text) (index : ℕ) (rs : List ProviderRequest) (final : TaskNode)
      → All (λ d. includes (seen ++ node_ids host index rs) d ≡ true) final.depends_on
      → IsOrdered seen (provider_nodes host index rs ++ final ∷ [])
  unfolding provider_nodes node_ids
  IsOrdered-provider_nodes seen index [] final h =
      (subst (λ all. All (λ d. includes all d ≡ true) final.depends_on) (append-nil seen) h, tt)
  IsOrdered-provider_nodes seen index (r ∷ rs) final h = (
    tt,
    IsOrdered-provider_nodes (seen ++ provider_node_id host index r ∷ []) (index + 1) rs final (
        subst (λ all. All (λ d. includes all d ≡ true) final.depends_on)
          (sym
            (append_assoc seen (provider_node_id host index r ∷ []) (node_ids host (index + 1) rs)))
          h),
  )

  collect_from :
      (index : ℕ) (rs : List ProviderRequest) (providers : List TaskNode)
      → collect_planner_node_ids
          (provider_nodes host index rs ++ final_node host intent request locale providers ∷ [])
        ≡ (node_ids host index rs, final_node_id intent)
  unfolding provider_nodes node_ids collect_planner_node_ids final_node
  collect_from index [] providers = refl
  collect_from index (r ∷ rs) providers =
      ap (λ (found : List Text × Text). (provider_node_id host index r ∷ found.0, found.1))
        (collect_from (index + 1) rs providers)

  last_depends-append :
      (ns : List TaskNode) (n : TaskNode) → last_depends (ns ++ n ∷ []) ≡ n.depends_on
  last_depends-append [] n = refl
  last_depends-append (a ∷ []) n = refl
  last_depends-append (a ∷ b ∷ ns) n = last_depends-append (b ∷ ns) n

  -- In a task graph each node depends only on nodes that stand before it, and the ids collected of
  -- it are those of one node for each request, in their order, and that of the final node of the
  -- intent, which depends on all of the others.
  pub build_task_graph_lem :
      (rs : List ProviderRequest)
      → IsOrdered [] (build_task_graph host intent request locale rs)
        × (collect_planner_node_ids (build_task_graph host intent request locale rs)
            ≡ (node_ids host 0 rs, final_node_id intent))
        × (last_depends (build_task_graph host intent request locale rs) ≡ node_ids host 0 rs)
  unfolding build_task_graph final_node
  build_task_graph_lem rs = (
    IsOrdered-provider_nodes [] 0 rs
        (final_node host intent request locale (provider_nodes host 0 rs))
        (subst (λ ids. All (λ d. includes (node_ids host 0 rs) d ≡ true) ids)
          (sym (map-provider_nodes 0 rs)) (All-includes [] (node_ids host 0 rs))),
    collect_from 0 rs (provider_nodes host 0 rs),
    last_depends-append (provider_nodes host 0 rs)
          (final_node host intent request locale (provider_nodes host 0 rs))
        ∙ map-provider_nodes 0 rs,
  )
