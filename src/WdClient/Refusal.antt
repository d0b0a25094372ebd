-- ===== src/WdClient/Refusal.antt =====
-- When the calls of src/wd-client.c return WD_CLIENT_EPARAM.
use wd_broker.Prelude.{
  ℕ, ◌≡◌, refl, sym, ap, ◌∙◌, Bool, true, false, ◌||◌, inl, inr, ◌⊎◌, Bool-cases, Option-cases,
  length, none, some, Option, List, [], ◌∷◌, ltb,
}
use wd_broker.Text.{Bytes, codes, strncmp_eq, c_string}
use wd_broker.Common.{socket_prot_version, received, failed, nothing, ReadResult, read_with_timeout}
use wd_broker.Client.{client_timeout_min_ms, client_timeout_max_ms}
use wd_broker.WdClient.{
  WdClient, Link, Code, done, error, invalid_parameter, timed_out, bad_version, Call, returned,
  crashed, is_empty, after_strstr, connect_to, wd_client_connect, request, check_version_text,
  wd_client_check_prot_version, id_command, register_command, register_after, also_sent,
  judge_register, judge_ok, wd_client_register, wd_client_ping, wd_client_unregister,
}

abbrev pub is_invalid : Code → Bool
is_invalid invalid_parameter = true
is_invalid done = false
is_invalid error = false
is_invalid timed_out = false
is_invalid bad_version = false

-- The call returns WD_CLIENT_EPARAM.
abbrev pub refuses : Call → Bool
refuses (returned code c requests) = is_invalid code
refuses crashed = false

-- The call returns WD_CLIENT_EPARAM and has sent nothing.
abbrev pub refuses_silently : Call → Bool
refuses_silently (returned code c []) = is_invalid code
refuses_silently (returned code c (x ∷ requests)) = false
refuses_silently crashed = false

connect_to-empty :
    (link : Link) (c : WdClient) (path : Bytes)
    → is_empty path ≡ true
    → (connect_to link c path).0 ≡ some invalid_parameter
unfolding connect_to is_empty
connect_to-empty link c [] e = refl
connect_to-empty link c (d ∷ path) e = absurd (cc)

-- Otherwise there is a socket, or another code.
abbrev Connects : Bytes → Option Code × WdClient → Type 0
Connects path z =
    ((z.0 ≡ none) × (z.1.socket_path ≡ path))
    ⊎ ((code : Code) × (z.0 ≡ some code) × (is_invalid code ≡ false) × (z.1.socket_path ≡ path))

connect_to-Connects :
    (link : Link) (c : WdClient) (path : Bytes)
    → is_empty path ≡ false
    → Connects c.socket_path (connect_to link c path)
unfolding connect_to is_empty
connect_to-Connects link c [] e = absurd (cc)
connect_to-Connects link c (d ∷ path) e = elim (Bool-cases link.socket) [
  | inr s ↦ rw s (inr (error, refl, refl, refl))
  | inl s ↦ elim (Bool-cases link.connect) [
    | inl k ↦ rw (s, k) (inl (refl, refl))
    | inr k ↦ rw (s, k) (inr (error, refl, refl, refl))
  ]
]

judge_register-valid :
    (response : Bytes) (c : WdClient) → is_invalid (judge_register response c).0 ≡ false
unfolding judge_register
judge_register-valid response c = elim (Bool-cases (strncmp_eq response (codes "OK ") 3)) [
  | inl e ↦ rw e refl
  | inr e ↦ rw e refl
]

judge_ok-valid :
    (label response : Bytes) (c : WdClient) → is_invalid (judge_ok label response c).0 ≡ false
unfolding judge_ok
judge_ok-valid label response c = elim (Bool-cases (strncmp_eq response (codes "OK") 2)) [
  | inl e ↦ rw e refl
  | inr e ↦ rw e refl
]

ReadResult-cases :
    (r : ReadResult) → (r ≡ failed) ⊎ (r ≡ nothing) ⊎ ((bytes : Bytes) × (r ≡ received bytes))
ReadResult-cases failed = inl refl
ReadResult-cases nothing = inr (inl refl)
ReadResult-cases (received bytes) = inr (inr (bytes, refl))

abbrev pub Refuses : Bool → Call → Type 0
Refuses expected call = (refuses call ≡ expected) × (refuses_silently call ≡ expected)

-- A request is refused only for an empty path, before anything is sent.
request-connected :
    (link : Link) (size : ℕ) (label cmd : Bytes) (judge : Bytes → WdClient → Code × WdClient)
    (c : WdClient)
    → ((response : Bytes) (d : WdClient) → is_invalid (judge response d).0 ≡ false)
    → (wd_client_connect link c).0 ≡ none
    → Refuses false (request link size label cmd judge c)
unfolding request
request-connected link size label cmd judge c valid there = elim (Bool-cases link.write) [
  | inr w ↦ rw (request, there, w) (refl, refl)
  | inl w ↦ elim (ReadResult-cases (read_with_timeout link.response size)) [
    | inl r ↦ rw (request, there, w, r) (refl, refl)
    | inr (inl r) ↦ rw (request, there, w, r) (refl, refl)
    | inr (inr (bytes, r)) ↦
        rw (request, there, w, r) (valid (c_string bytes) (wd_client_connect link c).1, refl)
  ]
]

request-Refuses :
    (link : Link) (size : ℕ) (label cmd : Bytes) (judge : Bytes → WdClient → Code × WdClient)
    (c : WdClient)
    → ((response : Bytes) (d : WdClient) → is_invalid (judge response d).0 ≡ false)
    → Refuses (is_empty c.socket_path) (request link size label cmd judge c)
unfolding request wd_client_connect
request-Refuses link size label cmd judge c valid = elim (Bool-cases (is_empty c.socket_path)) [
  | inl e ↦ rw (e, request, wd_client_connect, connect_to-empty link c c.socket_path e) (refl, refl)
  | inr e ↦ elim (connect_to-Connects link c c.socket_path e) [
    | inl (there, path) ↦ rw e (request-connected link size label cmd judge c valid there)
    | inr (code, closed, other, path) ↦ rw (e, request, wd_client_connect, closed) (other, other)
  ]
]

-- The outcome of the version check for a path that is not empty.
abbrev Checked : Bytes → Call → Type 0
Checked path (returned code d requests) = (is_invalid code ≡ false) × (d.socket_path ≡ path)
Checked path crashed = ⊥

check_version_text-Checked :
    (path buffer : Bytes) (c : WdClient)
    → c.socket_path ≡ path
    → Checked path (check_version_text buffer c)
unfolding check_version_text
check_version_text-Checked path buffer c kept =
    elim (Option-cases (after_strstr buffer (codes "protocol_version="))) [
      | inl e ↦ rw (check_version_text, e) (refl, kept)
      | inr (ver, e) ↦
          elim (Bool-cases (strncmp_eq ver socket_prot_version (length socket_prot_version))) [
            | inl s ↦ rw (check_version_text, e, s) (refl, kept)
            | inr s ↦ rw (check_version_text, e, s) (refl, kept)
          ]
    ]

wd_client_check_prot_version-empty :
    (link : Link) (c : WdClient)
    → is_empty c.socket_path ≡ true
    → wd_client_check_prot_version link c
      ≡ returned invalid_parameter (wd_client_connect link c).1 []
unfolding wd_client_check_prot_version wd_client_connect
wd_client_check_prot_version-empty link c e =
    rw (wd_client_check_prot_version, wd_client_connect, connect_to-empty link c c.socket_path e)
      refl

wd_client_check_prot_version-Checked :
    (link : Link) (c : WdClient)
    → is_empty c.socket_path ≡ false
    → Checked c.socket_path (wd_client_check_prot_version link c)
unfolding wd_client_check_prot_version wd_client_connect
wd_client_check_prot_version-Checked link c e = elim (connect_to-Connects link c c.socket_path e) [
  | inr (code, closed, other, path) ↦
      rw (wd_client_check_prot_version, wd_client_connect, closed) (other, path)
  | inl (there, path) ↦ elim (Bool-cases link.write) [
    | inr w ↦ rw (wd_client_check_prot_version, wd_client_connect, there, w) (refl, path)
    | inl w ↦ elim (ReadResult-cases (read_with_timeout link.response 128)) [
      | inl r ↦ rw (wd_client_check_prot_version, wd_client_connect, there, w, r) (refl, path)
      | inr (inl r) ↦ rw (wd_client_check_prot_version, wd_client_connect, there, w, r) (refl, path)
      | inr (inr (bytes, r)) ↦
          rw (wd_client_check_prot_version, wd_client_connect, there, w, r)
            (check_version_text-Checked c.socket_path (c_string bytes) (wd_client_connect link c).1
              path)
    ]
  ]
]

also_sent-valid :
    (xs : List Bytes) (call : Call) → refuses call ≡ false → Refuses false (also_sent xs call)
also_sent-valid [] (returned code d []) h = (h, h)
also_sent-valid [] (returned code d (y ∷ ys)) h = (h, refl)
also_sent-valid (x ∷ xs) (returned code d ys) h = (h, refl)
also_sent-valid xs crashed h = (refl, refl)

register_after-valid :
    (link : Link) (timeout_ms : ℕ) (ignore_pid : Bool) (path : Bytes) (call : Call)
    → is_empty path ≡ false
    → Checked path call
    → Refuses false (register_after link timeout_ms ignore_pid call)
unfolding register_after
register_after-valid link timeout_ms ignore_pid path (returned done d xs) e h =
    also_sent-valid xs
      (request link 128 (codes "REGISTER") (register_command d timeout_ms ignore_pid) judge_register
        d)
      (rw (sym (ap is_empty h.1 ∙ e))
        (request-Refuses link 128 (codes "REGISTER") (register_command d timeout_ms ignore_pid)
          judge_register d judge_register-valid).0)
register_after-valid link timeout_ms ignore_pid path (returned error d []) e h = (refl, refl)
register_after-valid link timeout_ms ignore_pid path (returned error d (x ∷ xs)) e h = (refl, refl)
register_after-valid link timeout_ms ignore_pid path (returned timed_out d []) e h = (refl, refl)
register_after-valid link timeout_ms ignore_pid path (returned timed_out d (x ∷ xs)) e h =
    (refl, refl)
register_after-valid link timeout_ms ignore_pid path (returned bad_version d []) e h = (refl, refl)
register_after-valid link timeout_ms ignore_pid path (returned bad_version d (x ∷ xs)) e h =
    (refl, refl)
register_after-valid link timeout_ms ignore_pid path (returned invalid_parameter d xs) e h =
    absurd (cc)
register_after-valid link timeout_ms ignore_pid path crashed e h = absurd h

register-Refuses :
    (version_link link : Link) (c : WdClient) (timeout_ms : ℕ) (ignore_pid : Bool)
    → Refuses
        (is_empty c.name
          || (ltb timeout_ms client_timeout_min_ms
              || (ltb client_timeout_max_ms timeout_ms || is_empty c.socket_path)))
        (wd_client_register version_link link (some c) timeout_ms ignore_pid)
unfolding wd_client_register register_after
register-Refuses version_link link c timeout_ms ignore_pid = elim (Bool-cases (is_empty c.name)) [
  | inl n ↦ rw n (refl, refl)
  | inr n ↦ elim (Bool-cases (ltb timeout_ms client_timeout_min_ms)) [
    | inl l ↦ rw (n, l) (refl, refl)
    | inr l ↦ elim (Bool-cases (ltb client_timeout_max_ms timeout_ms)) [
      | inl h ↦ rw (n, l, h) (refl, refl)
      | inr h ↦ elim (Bool-cases (is_empty c.socket_path)) [
        | inl e ↦ rw (n, l, h, e, wd_client_check_prot_version-empty version_link c e) (refl, refl)
        | inr e ↦
            rw (n, l, h, e)
              (register_after-valid link timeout_ms ignore_pid c.socket_path
                (wd_client_check_prot_version version_link c) e
                (wd_client_check_prot_version-Checked version_link c e))
      ]
    ]
  ]
]

-- For a client that is there: `wd_client_register` returns WD_CLIENT_EPARAM exactly for an empty name, a
-- timeout out of range or an empty path of the socket, `wd_client_ping` and `wd_client_unregister` exactly
-- for an empty id or an empty path; and then they have sent nothing to the broker.
pub calls-Refuses :
    (version_link link : Link) (c : WdClient) (timeout_ms : ℕ) (ignore_pid : Bool)
    → Refuses
        (is_empty c.name
          || (ltb timeout_ms client_timeout_min_ms
              || (ltb client_timeout_max_ms timeout_ms || is_empty c.socket_path)))
        (wd_client_register version_link link (some c) timeout_ms ignore_pid)
      × Refuses (is_empty c.client_id || is_empty c.socket_path) (wd_client_ping link (some c))
      × Refuses
          (is_empty c.client_id || is_empty c.socket_path)
          (wd_client_unregister link (some c))
unfolding wd_client_register wd_client_ping wd_client_unregister
calls-Refuses version_link link c timeout_ms ignore_pid = (
  register-Refuses version_link link c timeout_ms ignore_pid,
  elim (Bool-cases (is_empty c.client_id)) [
    | inl e ↦ rw e (refl, refl)
    | inr e ↦ rw e (
        request-Refuses link 64 (codes "PING") (id_command (codes "PING ") c)
          (judge_ok (codes "PING")) c (judge_ok-valid (codes "PING")))
  ],
  elim (Bool-cases (is_empty c.client_id)) [
    | inl e ↦ rw e (refl, refl)
    | inr e ↦ rw e (
        request-Refuses link 64 (codes "UNREGISTER") (id_command (codes "UNREGISTER ") c)
          (judge_ok (codes "UNREGISTER")) c (judge_ok-valid (codes "UNREGISTER")))
  ],
)
