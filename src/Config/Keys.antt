-- ===== src/Config/Keys.antt =====
-- The keys and words of the configuration: the JSON_ macros of src-cpp/common/common.h.
use Prim.Native.String.{String}

abbrev pub ip : String
ip = "ip"

abbrev pub port : String
port = "port"

abbrev pub clients : String
clients = "clients"

abbrev pub clientid : String
clientid = "clientid"

abbrev pub wait_timeout : String
wait_timeout = "waittimeout"

abbrev pub resend_num : String
resend_num = "resendnum"

abbrev pub resend_newhead : String
resend_newhead = "resend_newhead"

abbrev pub requests : String
requests = "requests"

abbrev pub query : String
query = "QUERY"

abbrev pub deposit : String
deposit = "DEPOSIT"

abbrev pub withdraw : String
withdraw = "WITHDRAW"

abbrev pub transfer : String
transfer = "TRANSFER"

abbrev pub bankid : String
bankid = "bankid"

abbrev pub accountid : String
accountid = "accountid"

abbrev pub dest_bankid : String
dest_bankid = "dest_bankid"

abbrev pub dest_accountid : String
dest_accountid = "dest_accountid"

abbrev pub seq : String
seq = "seq"

abbrev pub type : String
type = "type"

abbrev pub amount : String
amount = "amount"

abbrev pub banks : String
banks = "banks"

abbrev pub servers : String
servers = "servers"

abbrev pub chainno : String
chainno = "chainno"

abbrev pub config : String
config = "config"

abbrev pub server_report_interval : String
server_report_interval = "server_report_interval"

abbrev pub server_fail_timeout : String
server_fail_timeout = "server_fail_timeout"

abbrev pub master : String
master = "master"

abbrev pub extend_servers : String
extend_servers = "extend_servers"

abbrev pub start_delay : String
start_delay = "startdelay"

abbrev pub fail_scenario : String
fail_scenario = "failscenario"

abbrev pub fail_seq : String
fail_seq = "failseq"

abbrev pub no_failure : String
no_failure = "none"

abbrev pub fail_after_send : String
fail_after_send = "fail_after_send"

abbrev pub fail_after_recv : String
fail_after_recv = "fail_after_recv"

abbrev pub fail_after_send_in_extend : String
fail_after_send_in_extend = "fail_after_send_in_extend"

abbrev pub fail_after_recv_in_extend : String
fail_after_recv_in_extend = "fail_after_recv_in_extend"

abbrev pub fail_after_interval_fail : String
fail_after_interval_fail = "fail_after_interval_fail"

abbrev pub reqseed : String
reqseed = "reqseed"

abbrev pub random : String
random = "random"

abbrev pub udp_drop_interval : String
udp_drop_interval = "udp_drop_interval"

abbrev pub reqnum : String
reqnum = "reqnum"

abbrev pub accountnum : String
accountnum = "accountnum"

abbrev pub max_amount : String
max_amount = "maxamount"

abbrev pub prob_query : String
prob_query = "probquery"

abbrev pub prob_deposit : String
prob_deposit = "probdeposit"

abbrev pub prob_withdraw : String
prob_withdraw = "probwithdraw"

abbrev pub extend_send_delay : String
extend_send_delay = "extend_send_delay"
