-- ===== src/Ctrl/Refusal.antt =====
-- `wd-ctrl unregister` with a name that no client has, or more than one.
use wd_broker.Prelude.{
  ℕ, ◌+◌, ◌≡◌, ◌≢◌, refl, ap, ◌∙◌, false, ◌||◌, some, [], ◌∷◌, arith, ltb, length,
}
use wd_broker.Text.{Bytes, codes, str_eq}
use wd_broker.Common.{cmd_status, packet}
use wd_broker.Print.{Reply}
use wd_broker.Handler.{Broker, Env, Creds, handle_command}
use wd_broker.Slots.First.{Nowhere}
use wd_broker.WdClient.{Link}
use wd_broker.WdClient.Session.{Works, answer}
use wd_broker.Ctrl.Lines.{newlines}
use wd_broker.Ctrl.Reply.{
  header_texts, status_texts, status_lines_of-newlines, header_texts-no_rows,
}
use wd_broker.Ctrl.Lookup.{
  HasThisId, row_texts, search_table, search_client-no_rows, search_client-search_table, named,
  search_table-named,
}
use wd_broker.Ctrl.Unregister.{
  IsLegible, AllPrinted-AllRows, status_taken, status_reply-IsLegible, run_as_root-newlines,
}
use wd_broker.Ctrl.{
  Search, no_match, fails, unregister_found, ctrl_unregister, run_command, also_requested,
  ctrl_main,
}

unregister_found-none :
    (link : Link) (client : Bytes) (s : Search) (n : ℕ)
    → s.match_count ≡ 0 + n
    → s.found ≡ (false || ltb 0 n)
    → n ≢ 1
    → unregister_found link client s ≡ fails []
unfolding unregister_found
unregister_found-none link client s n e f h = ground arith

run_command-none :
    (link : Link) (version : Bytes) (b : Broker) (client : Bytes)
    → IsLegible version b
    → Nowhere (HasThisId client) b.clients
    → named client b.clients ≢ 1
    → run_command link
        (length b.clients)
        (codes "unregister")
        (client ∷ [])
        (newlines (status_texts version b.config b.clients))
      ≡ fails []
unfolding run_command str_eq ctrl_unregister
run_command-none link version b client h n k =
    let (e, f) = search_table-named client b.clients no_match n in
    let found =
      search_client-no_rows client (header_texts version b.config b.clients) (row_texts b.clients)
        no_match
        (header_texts-no_rows version b.config b.clients h.version_bytes h.clients h.header)
      ∙ search_client-search_table client b.clients no_match
          (AllPrinted-AllRows b.clients h.clients) in
    rw
      (
        run_command,
        ctrl_unregister,
        status_lines_of-newlines version b.config b.clients h.version_bytes h.clients,
        found,
      )
      (unregister_found-none link client (search_table client b.clients no_match)
        (named client b.clients) e f k)

-- `wd-ctrl unregister <name>`, run by root over a connection on which every system call succeeds,
-- against a broker whose STATUS reply is legible: if the name is no live slot's id, and no live slot
-- or more than one has it as its name, wd-ctrl fails and sends nothing but STATUS.
pub ctrl_main-fails :
    (env : Env) (creds : Creds) (status_link link : Link) (b : Broker) (path client : Bytes)
    → creds.uid ≡ 0
    → Works status_link
    → IsLegible env.package_version b
    → Nowhere (HasThisId client) b.clients
    → named client b.clients ≢ 1
    → let (b1, r1) = handle_command env (some creds) (packet cmd_status) b in
      let link1 : Link = record status_link { response = answer r1 } in
      (b1 ≡ b)
      × (ctrl_main
            (λ p. (link1, link))
            creds.uid
            (length b.clients)
            []
            path
            (codes "unregister" ∷ client ∷ [])
          ≡ fails (cmd_status ∷ []))
unfolding ctrl_main
ctrl_main-fails env creds status_link link b path client root w h n k =
    let version = env.package_version in
    let text = newlines (status_texts version b.config b.clients) in
    let with_b : Reply → Broker × Reply = λ r. (b, r) in
    let asked = status_taken env creds b root ∙ ap with_b (status_reply-IsLegible version b h) in
    let link1 : Link = record status_link { response = packet text } in
    let w' : Works link1 = record { socket = w.socket; connect = w.connect; write = w.write } in
    rw (asked, root)
      (
        refl,
        run_as_root-newlines link1 link version b (codes "unregister") (client ∷ []) w' h refl
            ∙ ap (also_requested (cmd_status ∷ [])) (run_command-none link version b client h n k),
      )
