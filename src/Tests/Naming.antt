-- ===== src/Tests/Naming.antt =====
-- The names of opcodes and errors, and a line of the log.
use keyless.Prelude.{◌≡◌, ◌↔◌, refl, arith, some, none, [], ◌∷◌, true, false, if◌then◌else◌}
use keyless.Wire.{load}
use keyless.Message.{Operation, zero_operation}
use keyless.Message.Request.{Request, Shows, no_request}
use keyless.Names.{print_ip}
use keyless.Names.Address.{print_ip-Shows}
use keyless.Names.{opstring}
use keyless.Names.Distinct.{has_case, opstring-has_case}
use keyless.Log.{Settings, write_log}
use keyless.Log.Fits.{is_logged, logged, write_log-logged}

opstring-has_case_example : (opstring 0x09 ≡ "UNKNOWN") ↔ (has_case 0x09 ≡ false)
opstring-has_case_example = opstring-has_case 0x09 (omega arith)

abbrev loud : Settings
loud = record { windows = false; silent = false; verbose = true; use_syslog = false }

write_log-logged_example :
    write_log loud true false (104 ∷ 105 ∷ [])
    ≡ some (if is_logged loud true false then some (logged loud false (104 ∷ 105 ∷ [])) else none)
write_log-logged_example = write_log-logged loud true false (104 ∷ 105 ∷ [])

abbrev from_client : Operation
from_client = record zero_operation {
  is_ip_set = true;
  ip = some (10 ∷ 0 ∷ 0 ∷ 7 ∷ 99 ∷ []);
  ip_len = 4;
}

abbrev client_request : Request
client_request = record no_request { client_ip = some (10 ∷ 0 ∷ 0 ∷ 7 ∷ []) }

from_client-Shows : Shows from_client client_request
unfolding load
from_client-Shows = record {
  opcode = refl;
  payload = refl;
  ski = refl;
  digest = refl;
  client_ip = refl;
}

print_ip-Shows_example : print_ip (λ a. a) (λ a. a) (some from_client) ≡ some (10 ∷ 0 ∷ 0 ∷ 7 ∷ [])
print_ip-Shows_example =
    print_ip-Shows (λ a. a) (λ a. a) from_client client_request from_client-Shows
