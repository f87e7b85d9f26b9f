-- ===== src/Workflow/Graph/Data.antt =====
-- packages/workflow/src/definitions.ts and graph.ts: the data of a workflow graph. The code of a node
-- (`run`) and the limits of a definition play no part in the graph and are left out.
use looms.Prelude.{
  true, Bool, ℕ, String, Option, none, List, [], ◌∷◌, ◌++◌, or_else, if◌then◌else◌, Bool, true,
  false, ◌≡◌, ◌⊎◌, inl, inr, refl,
}
use looms.Core.Json.{Json}

pub data NodeStatus : Type 0 where
  pending running completed failed skipped : NodeStatus

pub data SkipCause : Type 0 where
  inactive policy : SkipCause

pub record NodeState : Type 0 where
  pub status : NodeStatus
  pub result : Json
  pub error : Option String
  pub attempts : Option ℕ
  pub branch : Option String
  pub skip_cause : Option SkipCause
  pub iteration : Option (ℕ × Json)

pub data FailurePolicy : Type 0 where
  fail skip : FailurePolicy
  retry : (max_attempts : ℕ) → FailurePolicy
  fallback : (node_id : String) → FailurePolicy

pub data NodeType : Type 0 where
  task switch workflow : NodeType

pub record Node : Type 0 where
  pub id : String
  pub deps : Option (List String)
  pub type : Option NodeType
  pub failure : Option FailurePolicy

pub record WorkflowEdge : Type 0 where
  pub source : String
  pub target : String
  pub label : Option String

pub record WorkflowDefinition : Type 0 where
  pub nodes : List Node
  pub edges : Option (List WorkflowEdge)

-- What the functions throw: a `WorkflowValidationError`, or the end of the stack.
pub data GraphError : Type 0 where
  duplicate_node unknown_source unknown_target : (id : String) → GraphError
  cycle endless_fallback : GraphError

pub data Result {ℓ} (A : Type ℓ) : Type ℓ where
  ok : A → Result A
  err : GraphError → Result A

infixl 5 ◌>>=◌
abbrev pub ◌>>=◌ {ℓ κ} : {A : Type ℓ} {B : Type κ} → Result A → (A → Result B) → Result B
ok a >>= f = f a
err e >>= f = err e

-- The elements that pass a test that may throw.
unfoldable pub filter_ok {ℓ} : {A : Type ℓ} → (A → Result Bool) → List A → Result (List A)
filter_ok p [] = ok []
filter_ok p (x ∷ xs) = do keeps ← p x; rest ← filter_ok p xs; ok (if keeps then x ∷ rest else rest)

pub Result-cases {ℓ} :
    {A : Type ℓ} (r : Result A) → ((a : A) × (r ≡ ok a)) ⊎ ((e : GraphError) × (r ≡ err e))
Result-cases (ok a) = inl (a, refl)
Result-cases (err e) = inr (e, refl)

-- `xs.every(p)` for a test that may throw, which stops at the first element that fails
unfoldable pub all_ok {ℓ} : {A : Type ℓ} → (A → Result Bool) → List A → Result Bool
all_ok p [] = ok true
all_ok p (x ∷ xs) = let rest = all_ok p xs in p x >>= λ passes. if passes then rest else ok false

abbrev deps_edges : String → List String → List WorkflowEdge
deps_edges target [] = []
deps_edges target (source ∷ sources) =
    record { source = source; target = target; label = none } ∷ deps_edges target sources

abbrev node_edges : List Node → List WorkflowEdge
node_edges [] = []
node_edges (node ∷ nodes) = deps_edges node.id (or_else node.deps []) ++ node_edges nodes

-- `workflowEdges`
unfoldable pub workflow_edges : WorkflowDefinition → List WorkflowEdge
workflow_edges definition = or_else definition.edges (node_edges definition.nodes)
