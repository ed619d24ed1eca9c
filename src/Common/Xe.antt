-- ===== src/Common/Xe.antt =====
-- `Host.xe` of lib/host.py, which writes an `xe` command line and runs it on a host, and the
-- `_param_…` helpers of lib/common.py on top of it.
use xcp_ng_tests.Prelude.{
  ℕ, Bool, true, false, not, ◌&&◌, ◌||◌, Option, none, some, List, [], ◌∷◌, ◌++◌, Text, lit,
  text_eq, truthy, all, leb, join, ◌==◌, if◌then◌else◌,
}
use xcp_ng_tests.Effect.{Exn, Exec, pure, raise, catch_ssh, ◌>>=◌, ◌>>◌, ssh_command_failed}
use xcp_ng_tests.Commands.{Env, Trace, ssh_text}
use xcp_ng_tests.Common.Values.{to_xapi_bool}

-- `str | bool | dict[str, str]`
pub data Value : Type 0 where
  text : Text → Value
  bool : Bool → Value
  dict : List (Text × Text) → Value

abbrev pub Args : Type 0
Args = List (Text × Value)

-- The characters that `shlex.quote` leaves alone: letters, digits and `@%+=:,./-_`.
is_safe : ℕ → Bool
is_safe c =
    (leb b'a' c && leb c b'z')
    || ((leb b'A' c && leb c b'Z')
        || ((leb b'0' c && leb c b'9')
            || (c == b'@'
                || (c == b'%'
                    || (c == b'+'
                        || (c == b'='
                            || (c == b':'
                                || (c == b','
                                    || (c == b'.'
                                        || (c == b'/' || (c == b'-' || c == b'_')))))))))))

-- A quote inside quotes is written '"'"'.
escape_quotes : Text → Text
escape_quotes [] = []
escape_quotes (c ∷ t) =
    let rest = escape_quotes t in if c == 39 then 39 ∷ 34 ∷ 39 ∷ 34 ∷ 39 ∷ rest else c ∷ rest

-- `shlex.quote`
pub quote : Text → Text
quote [] = 39 ∷ 39 ∷ []
quote (c ∷ t) = if all is_safe (c ∷ t) then c ∷ t else 39 ∷ (escape_quotes (c ∷ t) ++ (39 ∷ []))

dict_items : Text → List (Text × Text) → List Text
dict_items key [] = []
dict_items key ((k, v) ∷ d) = (key ++ (b':' ∷ (k ++ (b'=' ∷ quote v)))) ∷ dict_items key d

pub stringify : Text → Value → Text
stringify key (text v) = key ++ (b'=' ∷ quote v)
stringify key (bool b) = key ++ (b'=' ∷ to_xapi_bool b)
stringify key (dict d) = join (lit " ") (dict_items key d)

pub stringify_all : Args → List Text
stringify_all [] = []
stringify_all ((key, value) ∷ args) = stringify key value ∷ stringify_all args

-- The command line; `minimal` and `force` add their options behind the action.
unfoldable pub xe_command : Text → Args → Bool → Bool → Text
xe_command action args minimal force =
    lit "xe "
    ++ (action
        ++ ((if minimal then lit " --minimal" else [])
            ++ ((if force then lit " --force" else [])
                ++ (lit " " ++ join (lit " ") (stringify_all args)))))

pub stdout_of : Exn → Text
stdout_of (ssh_command_failed rc stdout cmd ssherr) = stdout
stdout_of e = []

module _ (E : Env) (address : Text) where
  unfoldable pub xe : Text → Args → Exec Trace Text
  xe action args = ssh_text E address (xe_command action args false false)

  unfoldable pub xe_minimal : Text → Args → Exec Trace Text
  xe_minimal action args = ssh_text E address (xe_command action args true false)

  pub xe_force : Text → Args → Exec Trace Text
  xe_force action args = ssh_text E address (xe_command action args false true)

  -- The output of `xe` for a key that the map does not have.
  pub unknown_key : Text → Text
  unknown_key key = lit "Error: Key " ++ (key ++ lit " not found in map")

  pub key_args : Option Text → Args
  key_args none = []
  key_args (some key) = (lit "param-key", text key) ∷ []

  -- `key and accept_unknown_key and e.stdout == …`
  pub accepts : Option Text → Bool → Exn → Bool
  accepts none accept_unknown_key e = false
  accepts (some key) accept_unknown_key e =
      truthy key && (accept_unknown_key && text_eq (stdout_of e) (unknown_key key))

  unfoldable pub param_get : Text → Text → Text → Option Text → Bool → Exec Trace (Option Text)
  param_get xe_prefix uuid param_name key accept_unknown_key =
      catch_ssh
        (xe (xe_prefix ++ lit "-param-get")
            ((lit "uuid", text uuid) ∷ (lit "param-name", text param_name) ∷ key_args key)
          >>= λ value. pure (some value))
        (λ e. if accepts key accept_unknown_key e then pure none else raise e)

  set_name : Text → Option Text → Text
  set_name param_name none = param_name
  set_name param_name (some key) = param_name ++ (b':' ∷ key)

  pub param_set : Text → Text → Text → Value → Option Text → Exec Trace (Unit {0})
  param_set xe_prefix uuid param_name value key = do
    xe (xe_prefix ++ lit "-param-set")
        ((lit "uuid", text uuid) ∷ (set_name param_name key, value) ∷ [])
    pure tt

  add_key : Text → Option Text → Text
  add_key value none = value
  add_key value (some key) = key ++ (b'=' ∷ value)

  pub param_add : Text → Text → Text → Text → Option Text → Exec Trace (Unit {0})
  param_add xe_prefix uuid param_name value key = do
    xe (xe_prefix ++ lit "-param-add") (
        (lit "uuid", text uuid)
        ∷ (lit "param-name", text param_name)
        ∷ (lit "param-key", text (add_key value key))
        ∷ [])
    pure tt

  pub param_remove : Text → Text → Text → Text → Bool → Exec Trace (Unit {0})
  param_remove xe_prefix uuid param_name key accept_unknown_key =
      catch_ssh
        (xe (xe_prefix ++ lit "-param-remove") (
            (lit "uuid", text uuid)
            ∷ (lit "param-name", text param_name)
            ∷ (lit "param-key", text key)
            ∷ [])
          >>= λ _. pure tt)
        (λ e.
          if not accept_unknown_key || not (text_eq (stdout_of e) (unknown_key key))
          then raise e
          else pure tt)

  pub param_clear : Text → Text → Text → Exec Trace (Unit {0})
  param_clear xe_prefix uuid param_name = do
    xe (xe_prefix ++ lit "-param-clear")
        ((lit "uuid", text uuid) ∷ (lit "param-name", text param_name) ∷ [])
    pure tt
