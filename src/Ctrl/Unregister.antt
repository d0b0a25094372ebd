-- ===== src/Ctrl/Unregister.antt =====
-- `wd-ctrl unregister <name>` against the broker, from the STATUS request to the removed client.
use wd_broker.Prelude.{
  ℕ, ◌≤◌, ◌<◌, ◌≡◌, refl, ap, ◌∙◌, inl, inr, true, false, not, ◌&&◌, some, List, [], ◌∷◌, ◌++◌,
  arith, ◌==◌, length, length-append, take-eq_self, All, get_elem?, modify,
}
use wd_broker.Text.{Bytes, codes, all_bytes, is_space, str_eq, strncmp_eq, c_string}
use wd_broker.Scan.{scan_word}
use wd_broker.Print.{Reply, sent}
use wd_broker.Common.{cmd_status, packet, received, read_with_timeout}
use wd_broker.Client.{Client}
use wd_broker.ClientId.{parsed, parse_client_id}
use wd_broker.ClientId.Laws.{IsClientId, parse_client_id_lem}
use wd_broker.Slots.First.{IsFirst, Nowhere, IsFirst-get_elem?}
use wd_broker.Slots.ById.{HasId, MayUse-cases, identify-owned, identify-mismatch}
use wd_broker.Status.{status_reply}
use wd_broker.Status.Bounds.{total, status_lines, status_reply_fits, length-joined}
use wd_broker.Handler.{
  Broker, Env, Creds, valid_name_byte, unregister_client, handle_unregister, handle_status,
  dispatch, handle_command,
}
use wd_broker.Options.{success}
use wd_broker.WdClient.{Link}
use wd_broker.WdClient.Session.{Works, answer, c_string-id, command_arrives, dispatch-unregister}
use wd_broker.Ctrl.Lines.{newlines}
use wd_broker.Ctrl.Lookup.{
  HasThisId, IsOnlyNamed, AllRows, row_texts, search_client-no_rows, search_client-search_table,
  search_table-IsOnlyNamed,
}
use wd_broker.Ctrl.Reply.{
  header_texts, status_texts, AllPrinted, joined-status_texts, status_texts-IsText,
  c_string-newlines, status_lines_of-newlines, header_texts-no_rows,
}
use wd_broker.Ctrl.{
  unregistered, send_and_receive, written, no_match, search_client, unregister_request,
  unregister_found, judge_unregister, ctrl_unregister, run_command, run_as_root, ctrl_main,
  also_requested,
}

root_status :
    (creds : Creds) → creds.uid ≡ 0 → (not (creds.pid == 0) && not (creds.uid == 0)) ≡ false
root_status creds root = ground arith

-- STATUS, as root.
pub status_taken :
    (env : Env) (creds : Creds) (b : Broker)
    → creds.uid ≡ 0
    → handle_command env (some creds) (packet cmd_status) b
      ≡ (b, status_reply env.package_version b.config b.clients)
unfolding handle_command read_with_timeout c_string dispatch strncmp_eq str_eq handle_status
    scan_word
status_taken env creds b root = rw (handle_status, root_status creds root) refl

unregister_request_fits :
    (id : Bytes) → IsClientId id → unregister_request id ≡ codes "UNREGISTER " ++ (id ++ codes "\n")
unregister_request_fits id h =
    take-eq_self 127 (codes "UNREGISTER " ++ (id ++ codes "\n"))
      (omega (arith, length-append id (codes "\n"), h))

id_is_read : (id : Bytes) → IsClientId id → parse_client_id (id ++ codes "\n") ≡ parsed id
unfolding all_bytes is_space
id_is_read id h = parse_client_id_lem [] id (codes "\n") refl h refl

-- Root removes any client, whatever its mode and its process.
handle_unregister-root :
    (creds : Creds) (id : Bytes) (b : Broker) (k : ℕ)
    → creds.uid ≡ 0
    → IsClientId id
    → IsFirst (HasId id) b.clients k
    → handle_unregister creds (id ++ codes "\n") b ≡ (
      record b {
        clients = modify b.clients k (λ x. record x { active = false; anounced = false });
      },
      sent (codes "OK\n"),
    )
unfolding handle_unregister unregister_client
handle_unregister-root creds id b k root h f =
    let (c, e, p) = IsFirst-get_elem? (HasId id) b.clients k f in
    let is_root : (creds.uid == 0) ≡ true = ground arith in
    let not_strict : (b.config.strict_clients && not (creds.uid == 0)) ≡ false = ground arith in
    let read = id_is_read id h in
    elim (MayUse-cases id creds.pid c) [
      | inl m ↦
          rw (handle_unregister, read, identify-owned id creds.pid b.clients k c f e m, not_strict)
            refl
      | inr (m, n) ↦
          rw
            (handle_unregister, read, identify-mismatch id creds.pid b.clients k c f e m n, is_root)
            refl
    ]

unregister_taken :
    (env : Env) (creds : Creds) (id : Bytes) (b : Broker) (k : ℕ)
    → creds.uid ≡ 0
    → IsClientId id
    → IsFirst (HasId id) b.clients k
    → handle_command env (some creds) (packet (unregister_request id)) b ≡ (
      record b {
        clients = modify b.clients k (λ x. record x { active = false; anounced = false });
      },
      sent (codes "OK\n"),
    )
unfolding c_string
unregister_taken env creds id b k root h f =
    ap (λ cmd. handle_command env (some creds) (packet cmd) b) (unregister_request_fits id h)
    ∙ command_arrives env creds b (codes "UNREGISTER " ++ (id ++ codes "\n")) (omega arith)
        (omega (arith, length-append id (codes "\n"), h))
        (ap (λ s. codes "UNREGISTER " ++ s) (c_string-id id h.1))
    ∙ dispatch-unregister env creds b (id ++ codes "\n")
    ∙ handle_unregister-root creds id b k root h f

pub send_and_receive-received :
    (link : Link) (bytes : Bytes)
    → Works link
    → link.response ≡ packet bytes
    → 1 ≤ length bytes
    → length bytes ≤ 4095
    → send_and_receive link 4096 ≡ received bytes
unfolding send_and_receive read_with_timeout
send_and_receive-received link [] w r h l = absurd (omega arith)
send_and_receive-received link (c ∷ bytes) w r h l =
    rw (w.socket, w.connect, w.write, r, take-eq_self 4094 bytes (omega arith)) refl

pub written-Works : (link : Link) (cmd : Bytes) → Works link → written link cmd ≡ cmd ∷ []
unfolding written
written-Works link cmd w = rw (w.socket, w.connect, w.write) refl

-- What is found is removed.
unregister_found-one :
    (link : Link) (client id : Bytes)
    → Works link
    → link.response ≡ packet (codes "OK\n")
    → unregister_found link client (record { id_candidate = id; found = true; match_count = 1 })
      ≡ record {
        status = success;
        requests = unregister_request id ∷ [];
        shown = unregistered client ∷ [];
      }
unfolding unregister_found judge_unregister strncmp_eq str_eq c_string
unregister_found-one link client id w r =
    rw
      (
        send_and_receive-received link (codes "OK\n") w r (omega arith) (omega arith),
        written-Works link (unregister_request id) w,
      )
      refl

-- A broker whose STATUS reply is plain text of less than 4096 bytes, which is what wd-ctrl can read.
pub record IsLegible (version : Bytes) (b : Broker) : Type 0 where
  pub version_bytes : all_bytes valid_name_byte version ≡ true
  pub header : All (λ t. length t ≤ 79) (header_texts version b.config b.clients)
  pub clients : AllPrinted b.clients
  pub fits : total (status_lines version b.config b.clients) < 4096

pub AllPrinted-AllRows : (cs : List Client) → AllPrinted cs → AllRows cs
AllPrinted-AllRows [] h = tt
AllPrinted-AllRows (c ∷ cs) h = ((λ e. (h.0 e).row), AllPrinted-AllRows cs h.1)

pub status_reply-IsLegible :
    (version : Bytes) (b : Broker)
    → IsLegible version b
    → status_reply version b.config b.clients
      ≡ sent (newlines (status_texts version b.config b.clients))
status_reply-IsLegible version b h =
    status_reply_fits version b.config b.clients h.fits
    ∙ ap sent (joined-status_texts version b.config b.clients)

-- The search in the lines of the reply.
search_client-status_texts :
    (version : Bytes) (b : Broker) (client : Bytes) (k : ℕ) (cl : Client)
    → IsLegible version b
    → Nowhere (HasThisId client) b.clients
    → IsOnlyNamed client b.clients k
    → get_elem? b.clients k ≡ some cl
    → search_client client (status_texts version b.config b.clients) no_match
      ≡ record { id_candidate = cl.client_id; found = true; match_count = 1 }
search_client-status_texts version b client k cl h n o g =
    search_client-no_rows client (header_texts version b.config b.clients) (row_texts b.clients)
      no_match (header_texts-no_rows version b.config b.clients h.version_bytes h.clients h.header)
    ∙ search_client-search_table client b.clients no_match (AllPrinted-AllRows b.clients h.clients)
    ∙ search_table-IsOnlyNamed client b.clients k cl no_match n o g
    ∙ ap (λ m. record { id_candidate = cl.client_id; found = true; match_count = m }) (omega arith)

-- The command, given the text of STATUS.
run_command-unregister :
    (link : Link) (version : Bytes) (b : Broker) (client : Bytes) (k : ℕ) (cl : Client)
    → IsLegible version b
    → Nowhere (HasThisId client) b.clients
    → IsOnlyNamed client b.clients k
    → get_elem? b.clients k ≡ some cl
    → Works link
    → link.response ≡ packet (codes "OK\n")
    → run_command link
        (length b.clients)
        (codes "unregister")
        (client ∷ [])
        (newlines (status_texts version b.config b.clients))
      ≡ record {
        status = success;
        requests = unregister_request cl.client_id ∷ [];
        shown = unregistered client ∷ [];
      }
unfolding run_command str_eq ctrl_unregister
run_command-unregister link version b client k cl h n o g w r =
    rw
      (
        run_command,
        ctrl_unregister,
        status_lines_of-newlines version b.config b.clients h.version_bytes h.clients,
        search_client-status_texts version b client k cl h n o g,
      )
      (unregister_found-one link client cl.client_id w r)

pub length-newlines :
    (version : Bytes) (b : Broker)
    → IsLegible version b
    → (1 ≤ length (newlines (status_texts version b.config b.clients)))
      × (length (newlines (status_texts version b.config b.clients)) ≤ 4095)
length-newlines version b h =
    let same = ap length (joined-status_texts version b.config b.clients) in
    let whole = length-joined (status_lines version b.config b.clients) in
    (omega arith, omega (arith, same, whole, h.fits))

-- Any command of root, behind the STATUS request.
pub run_as_root-newlines :
    (status_link link : Link) (version : Bytes) (b : Broker) (cmd : Bytes) (args : List Bytes)
    → Works status_link
    → IsLegible version b
    → let text = newlines (status_texts version b.config b.clients) in
      status_link.response ≡ packet text
      → run_as_root status_link link (length b.clients) (cmd ∷ args)
        ≡ also_requested (cmd_status ∷ []) (run_command link (length b.clients) cmd args text)
unfolding run_as_root
run_as_root-newlines status_link link version b cmd args w h r =
    let text = newlines (status_texts version b.config b.clients) in
    let (l1, l2) = length-newlines version b h in
    rw
      (
        run_as_root,
        send_and_receive-received status_link text w r l1 l2,
        written-Works status_link cmd_status w,
        c_string-newlines (status_texts version b.config b.clients)
            (status_texts-IsText version b.config b.clients h.version_bytes h.clients),
      )
      refl

-- `wd-ctrl unregister <name>`, run by root over connections on which every system call succeeds,
-- against a broker whose STATUS reply is legible: if exactly one active or announced slot has the
-- name, none has it as its id, and the slot is the first with its own, well-formed id, then wd-ctrl
-- sends STATUS and UNREGISTER with that id, the broker frees this slot and changes nothing else, and
-- wd-ctrl reports success.
pub ctrl_main-handle_command :
    (env : Env) (creds : Creds) (status_link link : Link) (b : Broker) (path client : Bytes) (k : ℕ)
    (cl : Client)
    → creds.uid ≡ 0
    → Works status_link
    → Works link
    → IsLegible env.package_version b
    → Nowhere (HasThisId client) b.clients
    → IsOnlyNamed client b.clients k
    → get_elem? b.clients k ≡ some cl
    → IsClientId cl.client_id
    → IsFirst (HasId cl.client_id) b.clients k
    → let cmd = unregister_request cl.client_id in
      let (b1, r1) = handle_command env (some creds) (packet cmd_status) b in
      let (b2, r2) = handle_command env (some creds) (packet cmd) b1 in
      let link1 : Link = record status_link { response = answer r1 } in
      let link2 : Link = record link { response = answer r2 } in
      (b2 ≡ record b {
        clients = modify b.clients k (λ x. record x { active = false; anounced = false });
      })
      × (ctrl_main
            (λ p. (link1, link2))
            creds.uid
            (length b.clients)
            []
            path
            (codes "unregister" ∷ client ∷ [])
          ≡ record {
            status = success;
            requests = cmd_status ∷ cmd ∷ [];
            shown = unregistered client ∷ [];
          })
unfolding ctrl_main run_as_root
ctrl_main-handle_command env creds status_link link b path client k cl root w1 w2 h n o g id f =
    let version = env.package_version in
    let text = newlines (status_texts version b.config b.clients) in
    let with_b : Reply → Broker × Reply = λ r. (b, r) in
    let asked = status_taken env creds b root ∙ ap with_b (status_reply-IsLegible version b h) in
    let taken = unregister_taken env creds cl.client_id b k root id f in
    let link1 : Link = record status_link { response = packet text } in
    let link2 : Link = record link { response = packet (codes "OK\n") } in
    let w1' : Works link1 = record { socket = w1.socket; connect = w1.connect; write = w1.write } in
    let w2' : Works link2 = record { socket = w2.socket; connect = w2.connect; write = w2.write } in
    let found = run_command-unregister link2 version b client k cl h n o g w2' refl in
    rw (asked, taken, root)
      (
        refl,
        run_as_root-newlines link1 link2 version b (codes "unregister") (client ∷ []) w1' h refl
            ∙ ap (also_requested (cmd_status ∷ [])) found,
      )
