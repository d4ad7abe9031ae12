-- ===== src/Cmd/Server/Configuration.antt =====
-- cmd/hologram-server/config.go, and how main.go merges the command line's flags into a
-- configuration.
use hologram.Prelude.{ℕ, String, Bool, true, not, str_eq, ◌==◌, if◌then◌else◌}
use hologram.Server.Credentials.{Aliases}

pub record Bind : Type 0 where
  pub dn : String
  pub password : String

pub record Ldap : Type 0 where
  pub bind : Bind
  pub user_attr : String
  pub ssh_attr : String
  pub base_dn : String
  pub host : String
  pub insecure_ldap : Bool
  pub enable_ldap_roles : Bool
  pub role_attribute : String
  pub default_role_attr : String

pub record Aws : Type 0 where
  pub account : String
  pub default_role : String

-- An `int` is the number of its 64 bits, below 2^64.
pub record Config : Type 0 where
  pub ldap : Ldap
  pub aws : Aws
  pub stats : String
  pub listen : String
  pub cache_timeout : ℕ
  pub account_aliases : Aliases

-- What package flag gives, with the default where a flag is not set.
pub record Flags : Type 0 where
  pub listen_address : String
  pub ldap_address : String
  pub ldap_bind_dn : String
  pub ldap_insecure : Bool
  pub ldap_bind_password : String
  pub statsd_host : String
  pub iam_account : String
  pub enable_ldap_roles : Bool
  pub role_attribute : String
  pub default_role_attr : String
  pub default_role : String
  pub config_file : String
  pub cache_timeout : ℕ
  pub debug_mode : Bool

-- if *flag != "" { field = *flag }
abbrev pub override : String → String → String
override flag field = if str_eq flag "" then field else flag

-- if *flag { field = true }
abbrev pub switch_on : Bool → Bool → Bool
switch_on flag field = if flag then true else field

-- if field == "" { field = text }
abbrev pub by_default : String → String → String
by_default text field = if str_eq field "" then text else field

abbrev pub merge_bind : Flags → Bind → Bind
merge_bind flags bind = record {
  dn = override flags.ldap_bind_dn bind.dn;
  password = override flags.ldap_bind_password bind.password;
}

abbrev pub merge_ldap : Flags → Ldap → Ldap
merge_ldap flags ldap = record ldap {
  bind = merge_bind flags ldap.bind;
  host = override flags.ldap_address ldap.host;
  insecure_ldap = switch_on flags.ldap_insecure ldap.insecure_ldap;
  enable_ldap_roles = switch_on flags.enable_ldap_roles ldap.enable_ldap_roles;
  role_attribute = override flags.role_attribute ldap.role_attribute;
  default_role_attr = override flags.default_role_attr ldap.default_role_attr;
}

abbrev pub merge_aws : Flags → Aws → Aws
merge_aws flags aws = record {
  account = override flags.iam_account aws.account;
  default_role = override flags.default_role aws.default_role;
}

unfoldable pub merge : Flags → Config → Config
merge flags config = record {
  ldap = merge_ldap flags config.ldap;
  aws = merge_aws flags config.aws;
  stats = override flags.statsd_host config.stats;
  listen = override flags.listen_address config.listen;
  cache_timeout =
      if not (flags.cache_timeout == 3600) then flags.cache_timeout else config.cache_timeout;
  account_aliases = config.account_aliases;
}

-- The names of the attributes where none is given.
unfoldable pub complete : Config → Config
complete config = record config {
  ldap = record config.ldap {
    user_attr = by_default "cn" config.ldap.user_attr;
    ssh_attr = by_default "sshPublicKey" config.ldap.ssh_attr;
  };
}
