-- ===== src/Base/Tests/Host.antt =====
-- The theorems of the process ids, the log, the magnitudes and the machine id at concrete values.
use clove.Prelude.{
  ℕ, ◌^◌, ◌-◌, ◌≡◌, suc, ◌++◌, true, false, some, none, List, [], ◌∷◌, length, refl, arith,
}
use clove.Prelude.Int.{pos}
use mathlib.Core.Option
use mathlib.Core.List.{Permᴰ}
use clove.Codec.Value.{str_eq}
use clove.Base.Abs.{abs_for_int64}
use clove.Base.Pid.{pid_line, read_pids, generate_pid, remove_pid}
use clove.Base.Pid.Lines.{pid_lines, pids, without, read_pids-remove_pid}
use clove.Base.Log.{System, Logger, log_init, log_name, bytes_of, stack_text, zeros}
use clove.Base.Log.Files.{log_all, lines_from, log_init-log_all}
use clove.Base.Log.Stack.{stack_text-whole}
use clove.Base.Id.{get_hash}
use clove.Base.Id.Collect.{IpLib, Interface, get_machine_id}
use clove.Base.Id.Collect.Order.{get_machine_id-hash}

-- -5 as a 64-bit pattern.
abs_five : abs_for_int64 (2 ^ 64 - 5) ≡ 5
unfolding abs_for_int64
abs_five = refl

short_lines : length (pid_lines (12 ∷ 340 ∷ [])) ≡ 7
unfolding pid_line
short_lines = refl

read_pids-remove_pid_example :
    (read_pids true (some (pid_lines (12 ∷ 340 ∷ []))) ≡ some (pids (12 ∷ 340 ∷ [])))
    × (generate_pid true (pos 12) (some (pid_lines (12 ∷ 340 ∷ [])))
        ≡ some (pid_lines ((12 ∷ 340 ∷ []) ++ (12 ∷ []))))
    × (remove_pid true true (pos 12) (some (pid_lines (12 ∷ 340 ∷ [])))
        ≡ some (pid_lines (without 12 (12 ∷ 340 ∷ []))))
read_pids-remove_pid_example =
    read_pids-remove_pid 12 12 (340 ∷ []) (omega arith, (omega arith, tt))
      (omega (arith, short_lines))

-- A system in which Stat finds every file.
abbrev plain_system : System
plain_system = record {
  stat = λ files name. none;
  can_write = λ name. true;
  date = b'd' ∷ [];
  stamp = b't' ∷ [];
}

abbrev used_logger : Logger
used_logger = record { log_level = 0; log_prefix = []; files = λ name. some (1 ∷ []); console = [] }

log_init-log_all_example :
    let (ok, l') = log_init plain_system 1 (b'p' ∷ []) used_logger in
    (ok ≡ true)
    × (bytes_of (
          (log_all plain_system ((0, 7 ∷ []) ∷ (3, 8 ∷ []) ∷ []) l').files
            (log_name (b'p' ∷ []) plain_system.date))
        ≡ lines_from plain_system 1 ((0, 7 ∷ []) ∷ (3, 8 ∷ []) ∷ []))
    × ((log_all plain_system ((0, 7 ∷ []) ∷ (3, 8 ∷ []) ∷ []) l').files (b'q' ∷ [])
        ≡ used_logger.files (b'q' ∷ []))
unfolding str_eq log_name
log_init-log_all_example =
    log_init-log_all plain_system 1 (b'p') [] (b'q' ∷ []) used_logger
      ((0, 7 ∷ []) ∷ (3, 8 ∷ []) ∷ []) (λ files n. refl) refl refl

abbrev short_trace : List ℕ
short_trace = 1 ∷ 2 ∷ []

stack_text-whole_example :
    (k : ℕ) × (stack_text (suc (length short_trace)) 512 short_trace
      ≡ some (short_trace ++ zeros k))
stack_text-whole_example = stack_text-whole short_trace

abbrev every_ip : IpLib
every_ip = record {
  Ip = List ℕ;
  parse_ip = λ s. s;
  is_global_unicast = λ ip. true;
  is_interface_local_multicast = λ ip. false;
  is_link_local_multicast = λ ip. false;
  is_link_local_unicast = λ ip. false;
  is_loopback = λ ip. false;
  is_multicast = λ ip. false;
  is_unspecified = λ ip. false;
}

abbrev wired : Interface
wired = record {
  hardware_addr = b'a' ∷ [];
  addrs = (b'1' ∷ b'.' ∷ b'2' ∷ b'.' ∷ b'3' ∷ b'.' ∷ b'4' ∷ b'/' ∷ b'8' ∷ []) ∷ [];
}

abbrev wireless : Interface
wireless = record wired { hardware_addr = b'b' ∷ [] }

wired_taken : (get_machine_id every_ip none (some (wired ∷ []))).hw_addr ≡ (b'a' ∷ []) ∷ []
unfolding get_machine_id Option.bind
wired_taken = refl

get_machine_id-hash_example :
    get_hash (λ s. s) (get_machine_id every_ip (some []) (some (wired ∷ wireless ∷ [])))
    ≡ get_hash (λ s. s) (get_machine_id every_ip (some []) (some (wireless ∷ wired ∷ [])))
get_machine_id-hash_example =
    get_machine_id-hash every_ip (λ s. s) [] [] (wired ∷ wireless ∷ []) (wireless ∷ wired ∷ [])
      Permᴰ.nil (Permᴰ.swap refl refl)
