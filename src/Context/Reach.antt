-- ===== src/Context/Reach.antt =====
-- src/utp_context.ts: `setDebug` reaches the `debug` of every logger that was got since the type of the listener was set.
use mathlib.Core.Option.{some-ne-none}
use utp.Base.{
  ℕ, ◌≡◌, refl, ◌∙◌, sym, subst, Bool, true, Bool-cases, Option-cases, inl, inr, List, [], ◌∷◌,
  ◌++◌, some, arith,
}
use utp.Base.Map
use utp.Base.Map.{Map}
use utp.Base.Texts.{Text, text_key, same_text, same_text_refl, same_text_sound}
use utp.Context.{
  Loggers, Context, Partial, new, is_named, note_state, create_instance, get_instance,
  set_global_debug, set_enabled, is_log_enabled, set_listener_type, key_of, get_logger,
  set_log_level, set_each, set_debug, update_config,
}
use utp.Context.Debug.{contains, set_debug_lem}

-- every instance that has a name has a debug state
abbrev pub HaveStates : Loggers → Type 0
HaveStates ls =
    (tag : Text)
    → is_named tag ≡ true
    → Map.has tag ls.instances ≡ true
    → Map.has tag ls.tag_debug_state ≡ true

abbrev pub IsKept : Loggers → Text → Type 0
IsKept ls tag = (is_named tag ≡ true) × (Map.has tag ls.tag_debug_state ≡ true)

abbrev pub AreKept : Loggers → List Text → Type 0
AreKept ls [] = Unit
AreKept ls (t ∷ ts) = IsKept ls t × AreKept ls ts

abbrev pub IsValid : Context → Type 0
IsValid c = HaveStates c.behind × AreKept c.behind (Map.values c.loggers)

enabled-grows :
    (ls : Loggers) (t : Text) (b : Bool) (tag : Text)
    → Map.has tag ls.tag_debug_state ≡ true
    → Map.has tag (set_enabled ls t b).tag_debug_state ≡ true
unfolding set_enabled note_state
enabled-grows ls t b tag h = ground (arith, Map.has-set t tag b ls.tag_debug_state)

enabled-HaveStates :
    (ls : Loggers) (t : Text) (b : Bool) → HaveStates ls → HaveStates (set_enabled ls t b)
unfolding set_enabled note_state
enabled-HaveStates ls t b v tag n h = ground (
  arith,
  Map.has-set t tag b ls.instances,
  Map.has-set t tag b ls.tag_debug_state,
  same_text_sound t tag,
  v tag n,
)

create-set_enabled :
    (ls : Loggers) (t : Text) (b : Bool) → create_instance ls t b ≡ set_enabled ls t b
unfolding create_instance set_enabled note_state
create-set_enabled ls t b = ground arith

kept-grows :
    (ls : Loggers) (t : Text) (b : Bool) (tags : List Text)
    → AreKept ls tags
    → AreKept (set_enabled ls t b) tags
kept-grows ls t b [] k = tt
kept-grows ls t b (tag ∷ tags) ((n, h), k) =
    ((n, enabled-grows ls t b tag h), kept-grows ls t b tags k)

each-IsValid :
    (ls : Loggers) (ts : List Text) (b : Bool) (tags : List Text)
    → HaveStates ls
    → AreKept ls tags
    → HaveStates (set_each ls ts b) × AreKept (set_each ls ts b) tags
unfolding set_each
each-IsValid ls [] b tags v k = (v, k)
each-IsValid ls (t ∷ ts) b tags v k =
    each-IsValid (set_enabled ls t b) ts b tags (enabled-HaveStates ls t b v)
      (kept-grows ls t b tags k)

key-named : (type rest : Text) → is_named (type ++ b':' ∷ rest) ≡ true
unfolding is_named
key-named [] rest = refl
key-named (c ∷ type) rest = refl

made :
    (ls : Loggers) (tag : Text) (b : Bool)
    → is_named tag ≡ true
    → Map.has tag (set_enabled ls tag b).tag_debug_state ≡ true
unfolding set_enabled note_state
made ls tag b n = ground (arith, Map.has-set tag tag b ls.tag_debug_state, same_text_refl tag)

-- The instance of a named tag is there with its state, made or not.
instance-IsValid :
    (ls : Loggers) (tag : Text) (b : Bool) (tags : List Text)
    → is_named tag ≡ true
    → HaveStates ls
    → AreKept ls tags
    → HaveStates (get_instance ls tag b)
      × AreKept (get_instance ls tag b) tags
      × IsKept (get_instance ls tag b) tag
unfolding get_instance
instance-IsValid ls tag b tags n v k = elim (Bool-cases (Map.has tag ls.instances)) [
  | inl old ↦ rw old (v, k, (n, v tag n old))
  | inr new ↦
      rw (new, create-set_enabled ls tag b)
        (enabled-HaveStates ls tag b v, kept-grows ls tag b tags k, (n, made ls tag b n))
]

set-AreKept :
    (ls : Loggers) (k v : Text) (m : Map Text Text)
    → IsKept ls v
    → AreKept ls (Map.values m)
    → AreKept ls (Map.values (Map.set k v m)) × (contains v (Map.values (Map.set k v m)) ≡ true)
unfolding Map.values Map.set
set-AreKept ls k v [] h a = ((h, tt), ground (arith, same_text_refl v))
set-AreKept ls k v ((j, w) ∷ m) h (g, a) = elim (Bool-cases (same_text j k)) [
  | inl y ↦ rw y ((h, a), ground (arith, same_text_refl v))
  | inr n ↦ let (rest, inside) = set-AreKept ls k v m h a in rw n ((g, rest), ground arith)
]

get-IsKept :
    (ls : Loggers) (k v : Text) (m : Map Text Text)
    → Map.get k m ≡ some v
    → AreKept ls (Map.values m)
    → IsKept ls v × (contains v (Map.values m) ≡ true)
unfolding Map.values Map.get
get-IsKept ls k v [] e a = absurd (some-ne-none v (sym e))
get-IsKept ls k v ((j, w) ∷ m) e (g, a) = elim (Bool-cases (same_text j k)) [
  | inl y ↦
      let same : w ≡ v = ground arith in
      (subst (IsKept ls) same g, ground (arith, same_text_refl v))
  | inr n ↦ let (kept, inside) = get-IsKept ls k v m (ground arith) a in (kept, ground arith)
]

get_logger-IsValid :
    (c : Context) (module_type : Text)
    → IsValid c
    → let (c', tag) = get_logger c module_type in
      IsValid c' × IsKept c'.behind tag × (contains tag (Map.values c'.loggers) ≡ true)
unfolding get_logger key_of
get_logger-IsValid c module_type (v, a) =
    let name = key_of c module_type in
    elim (Option-cases (Map.get name c.loggers)) [
      | inl n ↦
          let (w, k, own) =
            instance-IsValid c.behind name c.config.enable_debug (Map.values c.loggers)
              (key-named c.listener_type module_type) v a in
          let (kept, inside) =
            set-AreKept (get_instance c.behind name c.config.enable_debug) name name c.loggers own
              k in
          rw n ((w, kept), own, inside)
      | inr (tag, f) ↦
          (let (own, inside) = get-IsKept c.behind name tag c.loggers f a in
            rw f ((v, a), own, inside))
    ]

-- the calls of the context
pub data Call : Type 0 where
  sets_listener_type gets_logger : Text → Call
  sets_log_level : ℕ → Call
  sets_debug : Bool → Call
  updates_config : Partial → Call

unfoldable pub step : Context → Call → Context
step c (sets_listener_type type) = set_listener_type c type
step c (gets_logger module_type) = (get_logger c module_type).0
step c (sets_log_level level) = set_log_level c level
step c (sets_debug enable) = set_debug c enable
step c (updates_config p) = update_config c p

abbrev pub run : Context → List Call → Context
run c [] = c
run c (call ∷ calls) = run (step c call) calls

kept-global :
    (ls : Loggers) (b : Bool) (tags : List Text)
    → AreKept ls tags
    → AreKept (set_global_debug ls b) tags
unfolding set_global_debug
kept-global ls b [] k = tt
kept-global ls b (tag ∷ tags) (h, k) = (h, kept-global ls b tags k)

new-IsValid : IsValid new
unfolding Map.values
new-IsValid = ((λ tag n h. h), tt)

step-IsValid : (c : Context) (call : Call) → IsValid c → IsValid (step c call)
unfolding step set_listener_type set_log_level set_debug set_global_debug update_config Map.values
step-IsValid c (sets_listener_type type) (v, a) =
    elim (Bool-cases (same_text type c.listener_type)) [
      | inl same ↦ rw same (v, a)
      | inr new ↦ rw new (v, tt)
    ]
step-IsValid c (gets_logger module_type) v = (get_logger-IsValid c module_type v).0
step-IsValid c (sets_log_level level) v = v
step-IsValid c (sets_debug enable) (v, a) =
    each-IsValid (set_global_debug c.behind enable) (Map.values c.loggers) enable
      (Map.values c.loggers) v (kept-global c.behind enable (Map.values c.loggers) a)
step-IsValid c (updates_config p) v = v

run-IsValid : (calls : List Call) (c : Context) → IsValid c → IsValid (run c calls)
run-IsValid [] c v = v
run-IsValid (call ∷ calls) c v = run-IsValid calls (step c call) (step-IsValid c call v)

-- After any calls of the context, a logger that is got has its log enabled, which is what its `debug` asks before it
-- writes, exactly if the `setDebug` that follows says so.
pub debug_reaches :
    (calls : List Call) (module_type : Text) (enable : Bool)
    → let (c, tag) = get_logger (run new calls) module_type in
      is_log_enabled (set_debug c enable).behind tag ≡ enable
debug_reaches calls module_type enable =
    let (v, k, inside) =
      get_logger-IsValid (run new calls) module_type (run-IsValid calls new new-IsValid) in
    set_debug_lem _ enable _ k.0 k.1 ∙ rw inside refl
