-- ===== src/Siem/Syslog.antt =====
-- siem.py, SyslogForwarder: the line of an event in the form of RFC 5424, its octet-counted frame on
-- TCP, and the retry of a send; and WebhookForwarder and the forwarders that the environment names.
-- The clock, the host name, the process id and the encoding into octets are arguments.
use protek.Prelude.{
  ℕ, ◌+◌, ◌*◌, Str, Option, none, some, Bool, true, false, List, [], ◌∷◌, ◌++◌, ◌==◌, str_eq,
  if◌then◌else◌, leb, take, length,
}
use protek.Prelude.Text.{lit, is_empty, lower, or_text, or_default, replace_char, split_all, strip}
use protek.Prelude.Decimal.{show_nat}

-- What `SyslogForwarder.__init__` keeps, but for the socket.
pub record Syslog : Type 0 where
  pub host : Str
  pub port : ℕ
  pub tcp : Bool
  pub facility : ℕ
  pub app_name : Str
  pub hostname : Str
  pub procid : Str

unfoldable pub new_syslog :
    (host : Str) → (port : ℕ) → (proto : Str) → (facility : ℕ) → (gethostname getpid : Str) → Syslog
new_syslog host port proto facility gethostname getpid = record {
  host = host;
  port = port;
  tcp = lower (or_text proto (lit "udp")) == lit "tcp";
  facility = facility;
  app_name = lit "protek";
  hostname = or_text gethostname (lit "-");
  procid = getpid;
}

abbrev pub sd_keys : List Str
sd_keys = lit "ip" ∷ lit "scenario" ∷ lit "origin" ∷ lit "source" ∷ lit "actor" ∷ lit "bouncer" ∷ []

-- `str(v)` of the payload's value of a key, none for None or a missing key.
unfoldable pub sd_pairs : (Str → Option Str) → List Str → List Str
sd_pairs get [] = []
sd_pairs get (k ∷ ks) =
    let v = or_default (get k) [] in
    let rest = sd_pairs get ks in
    if is_empty v then rest else (k ++ lit "=\"" ++ replace_char b'"' b'\'' v ++ lit "\"") ∷ rest

-- `" ".join(parts)`
unfoldable pub join_space : List Str → Str
join_space [] = []
join_space (p ∷ []) = p
join_space (p ∷ q ∷ ps) = p ++ lit " " ++ join_space (q ∷ ps)

unfoldable pub structured_data : List Str → Str
unfolding join_space
structured_data [] = lit "-"
structured_data (p ∷ ps) = lit "[protek@53595 " ++ join_space (p ∷ ps) ++ lit "]"

-- The line of an event.
unfoldable pub line_of :
    Syslog
    → (ts event_type : Str) → (severity : ℕ) → (get : Str → Option Str) → (msg_body : Str) → Str
unfolding structured_data sd_pairs
line_of fw ts event_type severity get msg_body =
    lit "<"
    ++ show_nat (fw.facility * 8 + severity)
    ++ lit ">1 "
    ++ join_space (
        ts
        ∷ fw.hostname
        ∷ fw.app_name
        ∷ fw.procid
        ∷ replace_char b' ' b'_' event_type
        ∷ structured_data (sd_pairs get sd_keys)
        ∷ msg_body
        ∷ [])

-- The octet-counted frame of the octets of a line.
unfoldable pub frame : List ℕ → List ℕ
frame octets = show_nat (length octets) ++ lit " " ++ octets

-- The socket's operations in the outside's state; a text is the error of an OSError.
pub record Network (S : Type 0) : Type 0 where
  pub connect : Str → ℕ → S → Option Str × S
  pub sendall : List ℕ → S → Option Str × S
  pub sendto : List ℕ → Str → ℕ → S → Option Str × S
  pub close : S → S

-- Whether the forwarder holds a socket, with the outside's state.
abbrev pub Sock : Type 0 → Type 0
Sock S = Bool × S

-- `_ensure_sock`; the socket of UDP is made without a connection.
unfoldable pub ensure_sock : {S : Type 0} → Network S → Syslog → Sock S → Option Str × Sock S
ensure_sock net fw (true, s) = (none, (true, s))
ensure_sock net fw (false, s) =
    if fw.tcp
    then (let r = net.connect fw.host fw.port s in
        elim r.0 [ none ↦ (none, (true, r.1)) | some e ↦ (some e, (false, r.1)) ])
    else (none, (true, s))

unfoldable pub reset_sock : {S : Type 0} → Network S → Sock S → Sock S
reset_sock net (true, s) = (false, net.close s)
reset_sock net (false, s) = (false, s)

unfoldable pub put :
    {S : Type 0} → Network S → Syslog → List ℕ → Option Str × Sock S → Option Str × Sock S
put net fw sent (some e, sock) = (some e, sock)
put net fw sent (none, (has, s)) =
    let r = if fw.tcp then net.sendall sent s else net.sendto sent fw.host fw.port s in
    (r.0, (has, r.1))

-- A failed try is followed by one more, on a new socket.
unfoldable pub retry :
    {S : Type 0} → Network S → Syslog → List ℕ → Option Str × Sock S → Option Str × Sock S
unfolding ensure_sock put reset_sock
retry net fw sent (none, sock) = (none, sock)
retry net fw sent (some e, sock) = put net fw sent (ensure_sock net fw (reset_sock net sock))

-- The end of `SyslogForwarder.send`, from the octets of the line.
unfoldable pub send_octets :
    {S : Type 0} → Network S → Syslog → List ℕ → Sock S → Option Str × Sock S
unfolding retry frame
send_octets net fw octets sock =
    let sent = if fw.tcp then frame octets else octets in
    retry net fw sent (put net fw sent (ensure_sock net fw sock))

unfoldable pub send :
    {S : Type 0}
    → Network S
    → (encode : Str → List ℕ) → Syslog
    → (ts event_type : Str) → (severity : ℕ) → (get : Str → Option Str) → (msg_body : Str) → Sock S
    → Option Str × Sock S
unfolding send_octets line_of
send net encode fw ts event_type severity get msg_body sock =
    send_octets net fw (encode (line_of fw ts event_type severity get msg_body)) sock

-- What `WebhookForwarder.send` raises, by the status of the answer.
unfoldable pub webhook_error : ℕ → Str → Option Str
webhook_error status_code text =
    if leb 400 status_code
    then some (lit "webhook HTTP " ++ show_nat status_code ++ lit ": " ++ take 200 text)
    else none

-- `_envstr`: up to the first `#`, stripped; the default is for a variable that is not set.
unfoldable pub env_str : (Str → Option Str) → Str → Str → Str
env_str environ name default =
    let raw : Str = elim (environ name) [ none ↦ default | some value ↦ value ] in
    elim (split_all b'#' raw) [ [] ↦ [] | part ∷ _ ↦ strip part ]

unfoldable pub env_int : (int_of : Str → Option ℕ) → (Str → Option Str) → Str → ℕ → ℕ
unfolding env_str
env_int int_of environ name default = elim (int_of (env_str environ name [])) [
  | none ↦ default
  | some n ↦ n
]

-- A forwarder as `_active_forwarders` makes it.
pub data Target : Type 0 where
  to_syslog : Syslog → Target
  to_webhook : (url token : Str) → Target

unfoldable pub syslog_target :
    (int_of : Str → Option ℕ) → (Str → Option Str) → (gethostname getpid : Str) → List Target
unfolding env_str env_int new_syslog
syslog_target int_of environ gethostname getpid =
    let host = env_str environ (lit "SYSLOG_HOST") [] in
    if is_empty host
    then []
    else (to_syslog (
          new_syslog host (env_int int_of environ (lit "SYSLOG_PORT") 514)
            (env_str environ (lit "SYSLOG_PROTO") (lit "udp"))
            (env_int int_of environ (lit "SYSLOG_FACILITY") 16) gethostname getpid)
        ∷ [])

unfoldable pub webhook_target : (Str → Option Str) → List Target
unfolding env_str
webhook_target environ =
    let url = env_str environ (lit "SIEM_WEBHOOK_URL") [] in
    if is_empty url then [] else to_webhook url (env_str environ (lit "SIEM_WEBHOOK_TOKEN") []) ∷ []

-- `_active_forwarders`; `int_of` is `int`, which raises on the empty text.
unfoldable pub active_forwarders :
    (int_of : Str → Option ℕ) → (Str → Option Str) → (gethostname getpid : Str) → List Target
unfolding syslog_target webhook_target
active_forwarders int_of environ gethostname getpid =
    syslog_target int_of environ gethostname getpid ++ webhook_target environ
