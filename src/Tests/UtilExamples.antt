-- ===== src/Tests/UtilExamples.antt =====
-- The theorems on times and loggers at concrete inputs.
use tpfaas.Base.{String, Bool, true, pos}
use tpfaas.Utils.Timing.{Timespec}
use tpfaas.Utils.Config.{SystemConfig}
use tpfaas.Utils.Logging.{Logger, Level}

abbrev half_second : Timespec
half_second = record { tv_sec = 3; tv_nsec = 500000000 }

abbrev settings : String → SystemConfig
settings log_level = record {
  log_level = log_level;
  log_file = "on";
  endpoint_port = pos 8080;
  endpoint_num_threads = pos 1;
}

abbrev logger_a : Logger
logger_a = record { name = "taskA"; to_file = true; level = Level.debug }

abbrev can_open : String → Bool
can_open _ = true
