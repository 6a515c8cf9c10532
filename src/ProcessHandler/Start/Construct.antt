-- ===== src/ProcessHandler/Start/Construct.antt =====
-- What the constructor leaves in a process.
use electric_os.Base.{
  ℕ, suc, ◌≤◌, false, not, ◌&&◌, [], ◌∷◌, length, ltb, some, ◌≡◌, refl, arith, if_both, ◌∙◌,
}
use electric_os.Stl.Point.{Point}
use electric_os.ProcessHandler.{
  Process, ProcessType, fullscreen, windowed, frameless_window, minimized, Request, draw,
  ProcessInfo, Handler, framed, new_process, described, push_request, is_minimized, is_success,
}

-- What the constructor leaves in the fields that the list depends on.
pub record Made (s : Handler) (procedure : ℕ) (info : ProcessInfo) (p : Process) : Type 0 where
  pub id : p.id ≡ suc s.new_id
  pub procedure_kept : p.procedure ≡ procedure
  pub type : p.type ≡ info.type
  pub depth : p.depth ≡ info.depth

alike :
    (s : Handler) (procedure : ℕ) (info : ProcessInfo) (p q : Process)
    → q.id ≡ p.id
    → q.procedure ≡ p.procedure
    → q.type ≡ p.type
    → q.depth ≡ p.depth
    → Made s procedure info p
    → Made s procedure info q
alike s procedure info p q a b c d made = record {
  id = a ∙ made.id;
  procedure_kept = b ∙ made.procedure_kept;
  type = c ∙ made.type;
  depth = d ∙ made.depth;
}

pushed :
    (s : Handler) (procedure : ℕ) (info : ProcessInfo) (p : Process) (r : Request)
    → Made s procedure info p
    → Made s procedure info (push_request p r)
unfolding push_request
pushed s procedure info p r made =
    if_both (λ (q : Process). Made s procedure info q)
      (not (is_minimized p.type) && not (is_success r) && ltb (length p.requests) 16)
      {x = record p { requests = r ∷ p.requests }} {y = p}
      (alike s procedure info p _ refl refl refl refl made) made

framed-Made :
    (s : Handler) (screen : Point) (procedure : ℕ) (info : ProcessInfo) (p : Process)
    (t : ProcessType)
    → is_minimized t ≡ false
    → Made s procedure info p
    → (q : Process) × (framed p screen info t ≡ some q) × Made s procedure info q
framed-Made s screen procedure info p fullscreen shown made =
    (_, refl, pushed s procedure info _ draw (alike s procedure info p _ refl refl refl refl made))
framed-Made s screen procedure info p windowed shown made =
    (_, refl, pushed s procedure info _ draw (alike s procedure info p _ refl refl refl refl made))
framed-Made s screen procedure info p frameless_window shown made =
    (_, refl, pushed s procedure info _ draw (alike s procedure info p _ refl refl refl refl made))
framed-Made s screen procedure info p minimized shown made = absurd (cc)

push_keeps :
    (p : Process) (r : Request)
    → ((push_request p r).id ≡ p.id) × ((push_request p r).procedure ≡ p.procedure)
unfolding push_request
push_keeps p r =
    if_both (λ (q : Process). (q.id ≡ p.id) × (q.procedure ≡ p.procedure))
      (not (is_minimized p.type) && not (is_success r) && ltb (length p.requests) 16)
      {x = record p { requests = r ∷ p.requests }} {y = p} (refl, refl) (refl, refl)

pub new_process-Made :
    (s : Handler) (fresh : Process) (screen : Point) (procedure : ℕ) (info : ProcessInfo)
    (reply : Request)
    → is_minimized info.type ≡ false
    → info.depth ≤ length s.processes
    → (q : Process) × (new_process s fresh screen procedure info reply ≡ some q)
      × Made s procedure info q
unfolding new_process
new_process-Made s fresh screen procedure info reply shown fits =
    let near : ltb (length s.processes) info.depth ≡ false = ground arith in
    let blank : Process = record fresh {
      id = suc s.new_id;
      procedure = procedure;
      requests = [];
    } in
    let keeps = push_keeps blank reply in
    framed-Made s screen procedure info (described s (push_request blank reply) info) info.type
      shown (record { id = keeps.0; procedure_kept = keeps.1; type = refl; depth = rw (near) refl })
