-- ===== src/Transitions/Shape.antt =====
-- The instances and supervisors that the page shows, and what a start does to the exclusion of an
-- instance and its supervisors (resources/js/hooks/use-process-transitions.ts).
use horizon_new_dawn.Base.{
  String, false, ◌≡◌, ◌≢◌, refl, ◌∙◌, ◌⊎◌, inl, inr, Option, none, some, List, [], ◌∷◌, map, arith,
  if◌then◌else◌, ◌==◌, string_eq, find, any, contains, ==-cases, All,
}
use horizon_new_dawn.Base.Dict.{Dict, lookup, insert, lookup-insert}
use horizon_new_dawn.Transitions.Model.{
  SupervisorGroup, SupervisorItem, PendingTransition, PendingProcessTransitions,
}
use horizon_new_dawn.Transitions.Hook.{named, owns, defined}
use horizon_new_dawn.Transitions.Effects.{Shrinks, Kept}

-- Names of instances with the ids of their supervisors.
abbrev pub Shape : Type 0
Shape = Dict String (List String)

abbrev pub ids : SupervisorGroup → List String
ids g = map (λ (i : SupervisorItem). i.id) g.items

abbrev pub shape : List SupervisorGroup → Shape
shape [] = []
shape (g ∷ gs) = (g.name, ids g) ∷ shape gs

-- The first instance that has the supervisor.
unfoldable pub owner : String → Shape → Option String
owner id [] = none
owner id ((name, is) ∷ σ) = let rest = owner id σ in if contains is id then some name else rest

-- Names are distinct, and a supervisor belongs to one instance.
abbrev pub IsUnambiguous : Shape → Type 0
IsUnambiguous σ =
    All
      (λ (entry : String × List String).
        (lookup entry.0 σ ≡ some entry.1) × All (λ id. owner id σ ≡ some entry.0) entry.1)
      σ

abbrev pub AllIdle : PendingProcessTransitions → List String → Type 0
AllIdle t = All (λ id. lookup id t.supervisors ≡ none)

abbrev pub Apart : PendingProcessTransitions → String × List String → Type 0
Apart t entry = (lookup entry.0 t.instances ≡ none) ⊎ AllIdle t entry.1

-- For each instance: it is not pending, or none of its supervisors is.
abbrev pub IsExclusive : Shape → PendingProcessTransitions → Type 0
IsExclusive σ t = All (Apart t) σ

All-map {ℓ κ κ'} :
    {A : Type ℓ} (P : A → Type κ) (Q : A → Type κ')
    → ((a : A) → P a → Q a)
    → (xs : List A) → All P xs
    → All Q xs
All-map P Q f [] h = tt
All-map P Q f (x ∷ xs) (p, h) = (f x p, All-map P Q f xs h)

All-zip {ℓ κ κ' κ''} :
    {A : Type ℓ} (P : A → Type κ) (R : A → Type κ') (Q : A → Type κ'')
    → ((a : A) → P a → R a → Q a)
    → (xs : List A) → All P xs
    → All R xs
    → All Q xs
All-zip P R Q f [] h k = tt
All-zip P R Q f (x ∷ xs) (p, h) (r, k) = (f x p r, All-zip P R Q f xs h k)

none_of_Kept : (o' o : Option PendingTransition) → Kept o' o → o ≡ none → o' ≡ none
none_of_Kept o' o (inl h) e = h
none_of_Kept o' o (inr h) e = h ∙ e

pub Shrinks-IsExclusive :
    (σ : Shape) (t' t : PendingProcessTransitions)
    → Shrinks t' t
    → IsExclusive σ t
    → IsExclusive σ t'
Shrinks-IsExclusive σ t' t (instances, supervisors) = All-map (Apart t) (Apart t') keep σ
  where
    keep : (entry : String × List String) → Apart t entry → Apart t' entry
    keep (name, is) (inl h) = inl (none_of_Kept _ _ (instances name) h)
    keep (name, is) (inr h) = inr (
        All-map (λ id. lookup id t.supervisors ≡ none) (λ id. lookup id t'.supervisors ≡ none)
          (λ id e. none_of_Kept _ _ (supervisors id) e) is h)

-- What the searches of the handlers find, in terms of the shape.
pub find-lookup :
    (gs : List SupervisorGroup) (name : String) (g : SupervisorGroup)
    → find (named name) gs ≡ some g
    → lookup name (shape gs) ≡ some (ids g)
unfolding find lookup
find-lookup [] name g h = cc
find-lookup (x ∷ gs) name g h = ground (arith, find-lookup gs name g)

any-contains :
    (id : String) (is : List SupervisorItem)
    → any (λ (i : SupervisorItem). i.id == id) is
      ≡ contains (map (λ (i : SupervisorItem). i.id) is) id
unfolding any contains
any-contains id [] = refl
any-contains id (i ∷ is) = ground (arith, any-contains id is)

pub find-owner :
    (gs : List SupervisorGroup) (id : String) (g : SupervisorGroup)
    → find (owns id) gs ≡ some g
    → owner id (shape gs) ≡ some g.name
unfolding find owner
find-owner [] id g h = cc
find-owner (x ∷ gs) id g h = ground (arith, find-owner gs id g, any-contains id x.items)

pub AllIdle-of_busy :
    (t : PendingProcessTransitions) (is : List SupervisorItem)
    → any (λ (i : SupervisorItem). defined (lookup i.id t.supervisors)) is ≡ false
    → AllIdle t (map (λ (i : SupervisorItem). i.id) is)
unfolding any
AllIdle-of_busy t [] h = tt
AllIdle-of_busy t (i ∷ is) h = (ground arith, AllIdle-of_busy t is (ground arith))

-- A new transition of an idle instance.
pub instance-IsExclusive :
    (σ : Shape) (t : PendingProcessTransitions) (name : String) (p : PendingTransition)
    (is : List String)
    → IsUnambiguous σ
    → lookup name σ ≡ some is
    → AllIdle t is
    → IsExclusive σ t
    → IsExclusive σ (record t { instances = insert name p t.instances })
instance-IsExclusive σ t name p is unambiguous known idle =
    All-zip _ (Apart t) (Apart (record t { instances = insert name p t.instances })) add σ
      unambiguous
  where
    add :
        (entry : String × List String)
        → (lookup entry.0 σ ≡ some entry.1) × All (λ id. owner id σ ≡ some entry.0) entry.1
        → Apart t entry
        → Apart (record t { instances = insert name p t.instances }) entry
    add (n, is') (here, _) (inr h) = inr h
    add (n, is') (here, _) (inl h) = elim (==-cases name n) [
      | inl (_, e) ↦ inr (let e' : is ≡ is' = ground arith in rw (← e') idle)
      | inr (differ, _) ↦ inl (rw (lookup-insert name n p t.instances) (rw differ h))
    ]

-- A new transition of a supervisor whose instance is idle.
pub supervisor-IsExclusive :
    (σ : Shape) (t : PendingProcessTransitions) (id : String) (p : PendingTransition)
    (name : String)
    → IsUnambiguous σ
    → owner id σ ≡ some name
    → lookup name t.instances ≡ none
    → IsExclusive σ t
    → IsExclusive σ (record t { supervisors = insert id p t.supervisors })
supervisor-IsExclusive σ t id p name unambiguous known idle =
    All-zip _ (Apart t) (Apart (record t { supervisors = insert id p t.supervisors })) add σ
      unambiguous
  where
    other :
        (n : String)
        → n ≢ name
        → (j : String) → owner j σ ≡ some n
        → lookup j t.supervisors ≡ none
        → lookup j (insert id p t.supervisors) ≡ none
    other n differ j owned h = ground (arith, lookup-insert id j p t.supervisors)

    add :
        (entry : String × List String)
        → (lookup entry.0 σ ≡ some entry.1) × All (λ id. owner id σ ≡ some entry.0) entry.1
        → Apart t entry
        → Apart (record t { supervisors = insert id p t.supervisors }) entry
    add (n, is) (_, owned) (inl h) = inl h
    add (n, is) (_, owned) (inr h) = elim (==-cases n name) [
      | inl (_, e) ↦ inl (rw e idle)
      | inr (_, differ) ↦ inr (
          All-zip (λ j. owner j σ ≡ some n) (λ j. lookup j t.supervisors ≡ none)
            (λ j. lookup j (insert id p t.supervisors) ≡ none) (other n differ) is owned h)
    ]
