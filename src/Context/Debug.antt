-- ===== src/Context/Debug.antt =====
-- src/utp_context.ts: which loggers `setDebug` reaches.
use mathlib.Core.Bool.{false≢true}
use mathlib.Core.Option.{some-ne-none}
use utp.Base.{
  ◌≡◌, refl, ◌∙◌, sym, Bool, true, false, Bool-cases, Option-cases, inl, inr, List, [], ◌∷◌, some,
  if◌then◌else◌, arith,
}
use utp.Base.Map
use utp.Base.Map.{Map}
use utp.Base.Texts.{Text, text_key, same_text}
use utp.Context.{
  Loggers, Context, is_named, note_state, set_global_debug, set_enabled, is_log_enabled, set_each,
  set_debug,
}

abbrev pub contains : Text → List Text → Bool
contains tag [] = false
contains tag (t ∷ ts) = if same_text t tag then true else contains tag ts

-- the state that the loop leaves for a tag: the new one, if the loop reaches it
state-set_each :
    (ls : Loggers) (tags : List Text) (b : Bool) (tag : Text)
    → is_named tag ≡ true
    → Map.get tag (set_each ls tags b).tag_debug_state
      ≡ (if contains tag tags then some b else Map.get tag ls.tag_debug_state)
unfolding set_each set_enabled note_state is_named
state-set_each ls [] b tag h = refl
state-set_each ls ([] ∷ ts) b [] h = absurd (false≢true h)
state-set_each ls ([] ∷ ts) b (c ∷ cs) h = state-set_each _ ts b (c ∷ cs) h
state-set_each ls ((d ∷ ds) ∷ ts) b tag h = ground (
  arith,
  state-set_each (set_enabled ls (d ∷ ds) b) ts b tag h,
  Map.get-set (d ∷ ds) tag b ls.tag_debug_state,
)

has_of_get :
    (tag : Text) (m : Map Text Bool) (v : Bool) → Map.get tag m ≡ some v → Map.has tag m ≡ true
has_of_get tag m v e = elim (Bool-cases (Map.has tag m)) [
  | inl y ↦ y
  | inr n ↦ absurd (some-ne-none v (sym e ∙ Map.get-none_iff_has tag m n))
]

pub get_of_has :
    (tag : Text) (m : Map Text Bool) → Map.has tag m ≡ true → (v : Bool) × (Map.get tag m ≡ some v)
get_of_has tag m h = elim (Option-cases (Map.get tag m)) [
  | inl n ↦ absurd (false≢true (sym (Map.has-of_get-none tag m n) ∙ h))
  | inr found ↦ found
]

pub enabled-state :
    (ls : Loggers) (tag : Text) (v : Bool)
    → is_named tag ≡ true
    → Map.get tag ls.tag_debug_state ≡ some v
    → is_log_enabled ls tag ≡ v
unfolding is_log_enabled
enabled-state ls tag v n e = rw (n, has_of_get tag ls.tag_debug_state v e, e) refl

-- `setDebug` enables or disables the log of each logger that the context holds, as asked. A logger that it no longer holds, since
-- the type of the listener was set in between, keeps its state.
pub set_debug_lem :
    (c : Context) (enable : Bool) (tag : Text)
    → is_named tag ≡ true
    → Map.has tag c.behind.tag_debug_state ≡ true
    → is_log_enabled (set_debug c enable).behind tag
      ≡ (if contains tag (Map.values c.loggers) then enable else is_log_enabled c.behind tag)
unfolding set_debug set_global_debug
set_debug_lem c enable tag n h =
    let (v, e) = get_of_has tag c.behind.tag_debug_state h in
    let ls = set_global_debug c.behind enable in
    let tags = Map.values c.loggers in
    elim (Bool-cases (contains tag tags)) [
      | inl held ↦ rw held (
          enabled-state (set_each ls tags enable) tag enable n
            (state-set_each ls tags enable tag n ∙ rw held refl))
      | inr gone ↦
          rw (gone, enabled-state c.behind tag v n e)
            (enabled-state (set_each ls tags enable) tag v n
              (state-set_each ls tags enable tag n ∙ rw gone e))
    ]
