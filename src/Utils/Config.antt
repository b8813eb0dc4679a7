-- ===== src/Utils/Config.antt =====
-- src/utils/config.cpp: the settings, read from the environment. `getEnvVar` is Faabric's, with the
-- default that it gives for a variable that is not set, and `strtol` is the C library's.
use tpfaas.Base.{ℕ, ◌-◌, ◌%◌, ◌^◌, String, ltb, if◌then◌else◌, ℤ, pos, negsuc}

pub record SystemConfig : Type 0 where
  pub log_level : String
  pub log_file : String
  pub endpoint_port : ℤ
  pub endpoint_num_threads : ℤ

-- The 32 bits of an `int`, read with their sign.
abbrev pub signed_word : ℕ → ℤ
signed_word n = if ltb n (2 ^ 31) then pos n else negsuc (2 ^ 32 - 1 - n)

-- `(int)` on a `long`
unfoldable pub to_int : ℤ → ℤ
to_int (pos n) = signed_word (n % 2 ^ 32)
to_int (negsuc n) = signed_word (2 ^ 32 - 1 - n % 2 ^ 32)

module _ (get_env_var : String → String → String) (strtol : String → ℤ) where
  -- `SystemConfig::initialise`, which the constructor and `reset` call
  unfoldable pub initialise : SystemConfig
  initialise = record {
    log_level = get_env_var "LOG_LEVEL" "info";
    log_file = get_env_var "LOG_FILE" "off";
    endpoint_port = to_int (strtol (get_env_var "ENDPOINT_PORT" "8080"));
    endpoint_num_threads = to_int (strtol (get_env_var "ENDPOINT_NUM_THREADS" "1"));
  }
