-- ===== src/WdClient/Version.antt =====
-- The check of the protocol version by `wd_client_check_prot_version` of src/wd-client.c against the
-- broker's reply to VERSION.
use mathlib.Core.List.{append_assoc}
use wd_broker.Prelude.{
  ◌≤◌, ◌≡◌, ◌≢◌, refl, ap, ◌∙◌, true, false, not, some, [], ◌∷◌, ◌++◌, arith, ◌==◌, length,
  length-append, take, take-eq_self,
}
use wd_broker.Text.{Bytes, codes, all_bytes, str_eq, strncmp_eq, c_string}
use wd_broker.Scan.{scan_word}
use wd_broker.Print.{sent}
use wd_broker.Common.{socket_prot_version, packet, received, read_with_timeout}
use wd_broker.Status.{version_reply}
use wd_broker.Status.Bounds.{write_message-print_lines}
use wd_broker.Handler.{
  Broker, Env, Creds, valid_name_byte, dispatch, handle_version, handle_command,
}
use wd_broker.WdClient.{
  WdClient, Link, done, returned, set_status, is_empty, wd_client_connect, after_strstr,
  version_command, check_version_text, wd_client_check_prot_version,
}
use wd_broker.WdClient.Session.{Works, answer, connect_to-Works}
use wd_broker.WdClient.Registration.{c_string-name}

abbrev pattern_text : Bytes
pattern_text = codes "protocol_version="

abbrev LacksEq : Bytes → Type 0
LacksEq v = all_bytes (λ c. not (c == b'=')) v ≡ true

-- A text that ends with '=' and holds no newline.
abbrev EndsWithEq : Bytes → Type 0
EndsWithEq [] = ⊥
EndsWithEq (x ∷ []) = x ≡ b'='
EndsWithEq (x ∷ y ∷ q) = (x ≢ b'\n') × EndsWithEq (y ∷ q)

mismatch :
    (q v rest : Bytes)
    → EndsWithEq q
    → LacksEq v
    → str_eq (take (length q) (v ++ (b'\n' ∷ rest))) q ≡ false
unfolding str_eq all_bytes
mismatch [] v rest p h = absurd p
mismatch (x ∷ []) [] rest p h = ground arith
mismatch (x ∷ []) (c ∷ v) rest p h = ground arith
mismatch (x ∷ y ∷ q) [] rest p h = ground arith
mismatch (x ∷ y ∷ q) (c ∷ v) rest p h = ground (arith, mismatch (y ∷ q) v rest p.1 (ground arith))

-- The search passes over the version.
after_strstr-version :
    (v rest : Bytes)
    → LacksEq v
    → after_strstr (v ++ (b'\n' ∷ rest)) pattern_text ≡ after_strstr (b'\n' ∷ rest) pattern_text
unfolding after_strstr strncmp_eq all_bytes
after_strstr-version [] rest h = refl
after_strstr-version (c ∷ v) rest h =
    let m = mismatch pattern_text (c ∷ v) rest (omega arith) h in
    rw (after_strstr, m) (after_strstr-version v rest (ground arith))

abbrev version_text : Bytes → Bytes
version_text v =
    codes "wd-broker_version=" ++ (v ++ (b'\n' ∷ (codes "protocol_version=1.0" ++ codes "\n")))

after_strstr-version_text :
    (v : Bytes) → LacksEq v → after_strstr (version_text v) pattern_text ≡ some (codes "1.0\n")
unfolding after_strstr strncmp_eq str_eq
after_strstr-version_text v h = after_strstr-version v (codes "protocol_version=1.0\n") h

version_reply-version_text : (v : Bytes) → length v ≤ 80 → version_reply v ≡ sent (version_text v)
unfolding version_reply
version_reply-version_text v h =
    write_message-print_lines 128
      ((codes "wd-broker_version=" ++ v ++ codes "\n")
        ∷ (codes "protocol_version=" ++ socket_prot_version ++ codes "\n")
        ∷ [])
      (omega arith) (omega (arith, length-append v (codes "\n")))
    ∙ ap (λ s. sent (codes "wd-broker_version=" ++ s))
        (append_assoc v (codes "\n") (codes "protocol_version=1.0\n"))

version_taken :
    (env : Env) (creds : Creds) (b : Broker)
    → handle_command env (some creds) (packet version_command) b
      ≡ (b, version_reply env.package_version)
unfolding handle_command read_with_timeout c_string dispatch strncmp_eq str_eq handle_version
    scan_word
version_taken env creds b = refl

c_string-version_text :
    (v : Bytes) → all_bytes valid_name_byte v ≡ true → c_string (version_text v) ≡ version_text v
unfolding c_string
c_string-version_text v h =
    ap (λ s. codes "wd-broker_version=" ++ s)
      (c_string-name v (b'\n' ∷ (codes "protocol_version=1.0" ++ codes "\n")) h)

received_version :
    (v : Bytes)
    → length v ≤ 80
    → read_with_timeout (packet (version_text v)) 128 ≡ received (version_text v)
unfolding read_with_timeout
received_version v h =
    ap (λ s. received (codes "wd-broker_version=" ++ s))
      (take-eq_self 109 (v ++ (b'\n' ∷ (codes "protocol_version=1.0" ++ codes "\n")))
        (omega (arith, length-append v (b'\n' ∷ (codes "protocol_version=1.0" ++ codes "\n")))))

-- Over a connection on which every system call succeeds, the library's check of the protocol version
-- accepts the broker's reply to VERSION, and the broker does not change; the package version is one of
-- at most 80 printable bytes, without white space and without '='.
pub wd_client_check_prot_version-handle_command :
    (env : Env) (creds : Creds) (link : Link) (c : WdClient) (b : Broker)
    → Works link
    → is_empty c.socket_path ≡ false
    → length env.package_version ≤ 80
    → all_bytes valid_name_byte env.package_version ≡ true
    → all_bytes (λ d. not (d == b'=')) env.package_version ≡ true
    → let (b', r) = handle_command env (some creds) (packet version_command) b in
      (b' ≡ b)
      × (wd_client_check_prot_version (record link { response = answer r }) c
          ≡ returned done
              (set_status (codes "Successfully connected via " ++ c.socket_path) c)
              (version_command ∷ []))
unfolding wd_client_check_prot_version wd_client_connect check_version_text strncmp_eq str_eq
wd_client_check_prot_version-handle_command env creds link c b w path short valid lacks =
    let v = env.package_version in
    let link' : Link = record link { response = packet (version_text v) } in
    let w' : Works link' = record { socket = w.socket; connect = w.connect; write = w.write } in
    let k = connect_to-Works link' c c.socket_path w' path in
    rw (version_taken env creds b, version_reply-version_text v short)
      (
        refl,
        rw
            (
              wd_client_check_prot_version,
              wd_client_connect,
              k,
              w.write,
              received_version v short,
              c_string-version_text v valid,
              check_version_text,
              after_strstr-version_text v lacks,
            )
            (ap (λ z. returned done (z.1) (version_command ∷ [])) k),
      )
