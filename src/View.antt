-- ===== src/View.antt =====
-- What a component renders: a tree of elements, texts and controls, with what each control does.
-- An element is written by its tag and its classes. Styles, fixed icons, keys, titles, placeholders and
-- bounds of number inputs are left out: they change nothing that a control shows or does.
pub mod Outcome
use pg_swarm.Base.{◌≡◌, refl, String, ℕ, suc, ◌++◌, Bool, false, List, [], ◌∷◌, if◌then◌else◌, eqb}
use pg_swarm.Js.{Value, undefined, null, bool, num, str, obj, arr}
use pg_swarm.Js.Text.{to_text}

pub data View {ℓ} (A : Type ℓ) : Type ℓ where
  nothing : View A
  text : String → View A
  -- two siblings
  ◌&◌ : View A → View A → View A
  el : String → View A → View A
  -- an element with `onClick`
  press : A → View A → View A
  -- a button: its classes, `disabled` and `onClick`
  button : String → Bool → A → View A → View A
  -- an input: its classes and type, `value`, `disabled`, and `onChange` on the text of the event
  input : String → Value → Bool → (String → A) → View A
  -- a checkbox: `checked`, and `onChange` on the state of the event
  checkbox : Bool → (Bool → A) → View A
  select : Value → (String → A) → View A → View A
  option : Value → View A → View A

infixr 4 ◌&◌
-- a value as a child of an element
abbrev pub child {ℓ} : {A : Type ℓ} → Value → View A
child undefined = nothing
child null = nothing
child (bool b) = nothing
child v = text (to_text v)

module _ {ℓ} {A : Type ℓ} where
  abbrev pub when : Bool → View A → View A
  when b v = if b then v else nothing

  abbrev pub each {κ} : {B : Type κ} → (B → View A) → List B → View A
  each f [] = nothing
  each f (x ∷ xs) = f x & each f xs

  -- the same, with the position, counted from `i`
  abbrev pub each_at {κ} : {B : Type κ} → (ℕ → B → View A) → ℕ → List B → View A
  each_at f i [] = nothing
  each_at f i (x ∷ xs) = f i x & each_at f (suc i) xs

  -- `<button className={c} onClick={a}>label</button>`
  abbrev pub plain_button : String → A → String → View A
  plain_button c a label = button c false a (text label)

  -- Every action that a control of the view can take has the property.
  abbrev pub EveryAct : (A → Type 0) → View A → Type 0
  EveryAct P (v & w) = EveryAct P v × EveryAct P w
  EveryAct P (el c v) = EveryAct P v
  EveryAct P (press a v) = P a × EveryAct P v
  EveryAct P (button c d a v) = P a × EveryAct P v
  EveryAct P (input c v d f) = (t : String) → P (f t)
  EveryAct P (checkbox b f) = (c : Bool) → P (f c)
  EveryAct P (select v f o) = ((t : String) → P (f t)) × EveryAct P o
  EveryAct P (option v w) = EveryAct P w
  EveryAct P _ = Unit

  -- the labels of the buttons of a view that can be pressed, as views, with their actions
  abbrev pub buttons : View A → List (View A × A)
  buttons (v & w) = buttons v ++ buttons w
  buttons (el c v) = buttons v
  buttons (press a v) = buttons v
  buttons (button c d a v) = if d then [] else (v, a) ∷ []
  buttons _ = []

-- A value as a child holds no button.
pub buttons-child {ℓ} : {A : Type ℓ} (v : Value) → buttons (child {A = A} v) ≡ []
buttons-child undefined = refl
buttons-child null = refl
buttons-child (bool b) = refl
buttons-child (num n) = refl
buttons-child (str s) = refl
buttons-child (obj o) = refl
buttons-child (arr xs) = refl

-- an `s` for every number but one
abbrev pub plural : ℕ → String
plural n = if eqb n 1 then "" else "s"
