-- ===== src/Workflow/States.antt =====
-- `WorkflowState` and `SessionStateMachine` of src/modules/messages/workflow.py.
use realxianyu.Base.{
  ◌≡◌, Bool, Comparable, true, false, ◌||◌, List, [], ◌∷◌, String, ◌==◌, string_eq, eq_iff, ◌↔◌, ap,
  refl, Option, some, none, if◌then◌else◌,
}

pub data WorkflowState : Type 0 where
  new replied quoted followed ordered closed manual : WorkflowState

-- The value of a member of the string enum; the tables hold this text.
abbrev pub value : WorkflowState → String
value new = "NEW"
value replied = "REPLIED"
value quoted = "QUOTED"
value followed = "FOLLOWED"
value ordered = "ORDERED"
value closed = "CLOSED"
value manual = "MANUAL"

-- Members of a string enum are compared as texts.
abbrev pub state_beq : WorkflowState → WorkflowState → Bool
state_beq a b = value a == value b

-- `WorkflowState(text)`, which raises on any other text.
unfoldable pub from_value : String → Option WorkflowState
from_value t =
    if t == "NEW"
    then some new
    else if t == "REPLIED"
    then some replied
    else if t == "QUOTED"
    then some quoted
    else if t == "FOLLOWED"
    then some followed
    else if t == "ORDERED"
    then some ordered
    else if t == "CLOSED"
    then some closed
    else if t == "MANUAL"
    then some manual
    else none

-- What a table holds as text is read back as the state that was written.
pub from_value-value : (s : WorkflowState) → from_value (value s) ≡ some s
unfolding from_value
from_value-value new = refl
from_value-value replied = refl
from_value-value quoted = refl
from_value-value followed = refl
from_value-value ordered = refl
from_value-value closed = refl
from_value-value manual = refl

value-injective : (a b : WorkflowState) → value a ≡ value b → a ≡ b
value-injective a b e = cc (ap from_value e, from_value-value a, from_value-value b)

pub state_beq_iff : (a b : WorkflowState) → (state_beq a b ≡ true) ↔ (a ≡ b)
state_beq_iff a b = (
  λ e. value-injective a b ((eq_iff (value a) (value b)).0 e),
  λ e. (eq_iff (value a) (value b)).1 (ap value e),
)

instance abbrev pub state_eq : Comparable WorkflowState
state_eq = record { same = state_beq; same_iff = state_beq_iff }

abbrev pub allowed_transitions : WorkflowState → List WorkflowState
allowed_transitions new = replied ∷ quoted ∷ manual ∷ closed ∷ []
allowed_transitions replied = quoted ∷ followed ∷ ordered ∷ manual ∷ closed ∷ []
allowed_transitions quoted = followed ∷ ordered ∷ manual ∷ closed ∷ []
allowed_transitions followed = ordered ∷ manual ∷ closed ∷ []
allowed_transitions ordered = closed ∷ manual ∷ []
allowed_transitions closed = []
allowed_transitions manual = replied ∷ quoted ∷ followed ∷ ordered ∷ closed ∷ []

abbrev pub contains : WorkflowState → List WorkflowState → Bool
contains s [] = false
contains s (x ∷ xs) = s == x || contains s xs

unfoldable pub can_transition : WorkflowState → WorkflowState → Bool
can_transition from_state to_state =
    contains to_state (allowed_transitions from_state) || from_state == to_state
