-- ===== src/Context.antt =====
-- src/utp_context.ts and src/logger.ts: which loggers have their log enabled: `debug` asks for it
-- before it writes, while `error` and `info` write always. A logger is its tag, since there is one for each tag: its
-- field is an entry of the table of instances, so that all who hold it see a change.
pub mod Debug
pub mod Reach
use utp.Base.{ℕ, Bool, true, false, ◌&&◌, List, [], ◌∷◌, ◌++◌, Option, none, some, if◌then◌else◌}
use utp.Base.Map
use utp.Base.Map.{Map}
use utp.Base.Texts.{Text, text_key, same_text}

-- the static fields of `Logger`; an instance is its `isEnabled`
pub record Loggers : Type 0 where
  pub global_debug_enabled : Bool
  pub tag_debug_state : Map Text Bool
  pub instances : Map Text Bool

-- the truth of a tag
unfoldable pub is_named : Text → Bool
is_named [] = false
is_named (_ ∷ _) = true

unfoldable pub note_state : Loggers → Text → Bool → Loggers
note_state ls tag enabled =
    if is_named tag
    then record ls { tag_debug_state = Map.set tag enabled ls.tag_debug_state }
    else ls

-- `new Logger` and its entry in the table
unfoldable pub create_instance : Loggers → Text → Bool → Loggers
create_instance ls tag enable_logging =
    let noted = note_state ls tag enable_logging in
    record noted { instances = Map.set tag enable_logging noted.instances }

-- `Logger.getInstance`; the instance that it gives is that of the tag
unfoldable pub get_instance : Loggers → Text → Bool → Loggers
get_instance ls tag enable_logging =
    if Map.has tag ls.instances then ls else create_instance ls tag enable_logging

unfoldable pub set_global_debug : Loggers → Bool → Loggers
set_global_debug ls enabled = record ls { global_debug_enabled = enabled }

-- `enable` and `disable`
unfoldable pub set_enabled : Loggers → Text → Bool → Loggers
set_enabled ls tag enabled =
    note_state (record ls { instances = Map.set tag enabled ls.instances }) tag enabled

abbrev or_false : Option Bool → Bool
or_false none = false
or_false (some b) = b

-- `isLogEnabled`, which `debug` asks
unfoldable pub is_log_enabled : Loggers → Text → Bool
is_log_enabled ls tag =
    let by_default = or_false (Map.get tag ls.instances) && ls.global_debug_enabled in
    if is_named tag
    then (if Map.has tag ls.tag_debug_state
        then or_false (Map.get tag ls.tag_debug_state)
        else by_default)
    else by_default

pub record Config : Type 0 where
  pub log_level : ℕ
  pub enable_debug : Bool
  pub rto_min : ℕ
  pub rto_max : ℕ
  pub resend_limit : ℕ
  pub window_min : ℕ
  pub window_max : ℕ

-- the one context, with the loggers behind it
pub record Context : Type 0 where
  pub config : Config
  pub listener_type : Text
  pub loggers : Map Text Text
  pub behind : Loggers

abbrev pub new_config : Config
new_config = record {
  log_level = 1;
  enable_debug = false;
  rto_min = 500;
  rto_max = 10000;
  resend_limit = 5;
  window_min = 4;
  window_max = 9007199254740991;
}

-- its `listenerType` is `UNKNOWN`
abbrev pub new : Context
new = record {
  config = new_config;
  listener_type = b'U' ∷ b'N' ∷ b'K' ∷ b'N' ∷ b'O' ∷ b'W' ∷ b'N' ∷ [];
  loggers = [];
  behind = record { global_debug_enabled = false; tag_debug_state = []; instances = [] };
}

unfoldable pub set_listener_type : Context → Text → Context
set_listener_type c type =
    if same_text type c.listener_type then c else record c { listener_type = type; loggers = [] }

unfoldable pub key_of : Context → Text → Text
key_of c module_type = c.listener_type ++ b':' ∷ module_type

abbrev pub found : Context → Text → Option Text → Context × Text
found c name (some logger) = (c, logger)
found c name none = (
  record c {
    behind = get_instance c.behind name c.config.enable_debug;
    loggers = Map.set name name c.loggers;
  },
  name,
)

unfoldable pub get_logger : Context → Text → Context × Text
get_logger c module_type = let name = key_of c module_type in found c name (Map.get name c.loggers)

unfoldable pub set_log_level : Context → ℕ → Context
set_log_level c level = record c { config = record c.config { log_level = level } }

unfoldable pub set_each : Loggers → List Text → Bool → Loggers
set_each ls [] enable = ls
set_each ls (tag ∷ tags) enable = set_each (set_enabled ls tag enable) tags enable

unfoldable pub set_debug : Context → Bool → Context
set_debug c enable = record c {
  config = record c.config { enable_debug = enable };
  behind = set_each (set_global_debug c.behind enable) (Map.values c.loggers) enable;
}

-- the fields that `updateConfig` is given; the window's two are given together
pub record Partial : Type 0 where
  pub log_level : Option ℕ
  pub enable_debug : Option Bool
  pub rto_min : Option ℕ
  pub rto_max : Option ℕ
  pub resend_limit : Option ℕ
  pub window_size : Option (ℕ × ℕ)

abbrev or_old {ℓ} : {A : Type ℓ} → Option A → A → A
or_old none a = a
or_old (some b) a = b

unfoldable pub update_config : Context → Partial → Context
update_config c p =
    let (least, most) = or_old p.window_size (c.config.window_min, c.config.window_max) in
    record c {
      config = record {
        log_level = or_old p.log_level c.config.log_level;
        enable_debug = or_old p.enable_debug c.config.enable_debug;
        rto_min = or_old p.rto_min c.config.rto_min;
        rto_max = or_old p.rto_max c.config.rto_max;
        resend_limit = or_old p.resend_limit c.config.resend_limit;
        window_min = least;
        window_max = most;
      };
    }
