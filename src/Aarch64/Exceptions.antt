-- ===== src/Aarch64/Exceptions.antt =====
-- aarch64/exceptions.s: the handler of synchronous exceptions, which panics with a message.
use Prim.Native.String.{String}
use vega_os.Base.{ℕ, [], bit_and, ◌>>◌, ◌==◌, if◌then◌else◌}
use vega_os.Log.{Call, codes}

abbrev pub unknown_err_msg : String
unknown_err_msg = "Unknown error"

abbrev pub svc_msg : String
svc_msg = "SVC not implemented (TODO)"

abbrev pub mem_access_violation_msg : String
mem_access_violation_msg = "Memory access violation"

-- The branches of el1_sp0_sync on the class of the exception, bits 26 to 31 of esr_el1.
unfoldable pub el1_sp0_sync : ℕ → String
el1_sp0_sync esr_el1 =
    let class = bit_and (esr_el1 >> 26) 0x3f in
    if class == 0
    then unknown_err_msg
    else if class == 0x15
    then svc_msg
    else if class == 0x25
    then mem_access_violation_msg
    else unknown_err_msg

-- The call of panic: the message is the format, and nothing is passed behind it.
unfoldable pub do_panic : String → Call
do_panic msg_label = record { fmt = codes msg_label; args = [] }
