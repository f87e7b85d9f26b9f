-- ===== src/Workflow/Graph/Results.antt =====
-- packages/workflow/src/graph.ts: what dependents see of a node that fell back.
use looms.Prelude.{
  ◌++◌, eq_refl, String, Option, none, some, false, List, [], ◌∷◌, ◌==◌, ◌≡◌, refl, arith, ◌∙◌, ap,
  includes, option_map, if◌then◌else◌,
}
use looms.Prelude.Dict.{Dict, get, get-put}
use looms.Core.Json.{Json}
use looms.Workflow.Graph.Data.{Node, WorkflowEdge}
use looms.Workflow.Graph.Sort.{node_ids}
use looms.Workflow.Graph.Activity.{
  States, active_fallback, report_fallbacks, report, own_results, result_of, node_results,
}

get-own_results :
    (states : States) (id : String)
    → get id (own_results states) ≡ option_map (λ s. s.result) (get id states)
unfolding get
get-own_results [] id = refl
get-own_results ((j, state) ∷ states) id = ground (arith, get-own_results states id)

-- What a node reports: its fallback's result, null if that has no state, if it fell back, else its own.
abbrev pub seen : States → Option String → Option Json → Option Json
seen states none own = own
seen states (some target) own = some (result_of (get target states))

get-report :
    (states : States) (results : Dict Json) (node : Node) (target : Option String) (id : String)
    → get id (report states results node target)
      ≡ (if node.id == id then seen states target (get id results) else get id results)
get-report states results node none id = ground arith
get-report states results node (some target) id =
    get-put node.id id (result_of (get target states)) results

-- A result that no later node is named by stays.
report_fallbacks-get :
    (states : States) (nodes : List Node) (results : Dict Json) (id : String)
    → includes (node_ids nodes) id ≡ false
    → get id (report_fallbacks states nodes results) ≡ get id results
unfolding report_fallbacks
report_fallbacks-get states [] results id h = refl
report_fallbacks-get states (node ∷ nodes) results id h =
    report_fallbacks-get states nodes
      (report states results node (active_fallback node (get node.id states))) id (ground arith)
    ∙ get-report states results node (active_fallback node (get node.id states)) id
    ∙ ground arith

report_fallbacks-seen :
    (states : States) (before after : List Node) (node : Node) (results : Dict Json)
    → includes (node_ids before) node.id ≡ false
    → includes (node_ids after) node.id ≡ false
    → get node.id (report_fallbacks states (before ++ node ∷ after) results)
      ≡ seen states (active_fallback node (get node.id states)) (get node.id results)
unfolding report_fallbacks
report_fallbacks-seen states [] after node results h k =
    report_fallbacks-get states after
      (report states results node (active_fallback node (get node.id states))) node.id k
    ∙ get-report states results node (active_fallback node (get node.id states)) node.id
    ∙ simp eq_refl
report_fallbacks-seen states (b ∷ before) after node results h k =
    let next = report states results b (active_fallback b (get b.id states)) in
    let kept : get node.id next ≡ get node.id results =
      get-report states results b (active_fallback b (get b.id states)) node.id ∙ ground arith in
    report_fallbacks-seen states before after node next (ground arith) k
    ∙ ap (λ own. seen states (active_fallback node (get node.id states)) own) kept

-- In a workflow where no other node has its id, a node that was skipped by a policy that falls back
-- reports its fallback's result, null if that has no state, and any other node the result of its
-- own state.
pub node_results-seen :
    (states : States) (before after : List Node) (node : Node) (edges : Option (List WorkflowEdge))
    → includes (node_ids before) node.id ≡ false
    → includes (node_ids after) node.id ≡ false
    → get node.id (node_results (record { nodes = before ++ node ∷ after; edges = edges }) states)
      ≡ seen states
          (active_fallback node (get node.id states))
          (option_map (λ s. s.result) (get node.id states))
unfolding node_results
node_results-seen states before after node edges h k =
    report_fallbacks-seen states before after node (own_results states) h k
    ∙ ap (λ own. seen states (active_fallback node (get node.id states)) own)
        (get-own_results states node.id)
