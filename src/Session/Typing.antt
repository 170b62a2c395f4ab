-- ===== src/Session/Typing.antt =====
-- The task of src/session/event_loop.rs that reads standard input, over all its reads.
use tabra.Prelude.{
  ℕ, ◌≡◌, refl, sym, ap, subst, ◌∙◌, Bool, true, false, List, [], ◌∷◌, ◌++◌, Option, none, some,
  inl, inr, arith,
}
use mathlib.Core.List.{append_assoc, append-nil}
use tabra.Keys.Bytes.{SameBytes, SameBytes-refl}
use tabra.Keys.Passthrough.{escape_if}
use tabra.Overlay.{Ansi}
use tabra.Popup.{PopupState}
use tabra.Session.{Session, on_stdin}
use tabra.Session.Forward.{on_stdin-Forwarded}

-- What a read gives: the end, an error, a chunk, or nothing for 10 ms, which only a read behind a
-- pending ESC gives back.
pub data Read : Type 0 where
  ended failed timed_out : Read
  chunk_read : List ℕ → Read

-- The bytes that are read before the task ends.
abbrev pub typed_bytes : List Read → List ℕ
typed_bytes [] = []
typed_bytes (ended ∷ rs) = []
typed_bytes (failed ∷ rs) = []
typed_bytes (timed_out ∷ rs) = typed_bytes rs
typed_bytes (chunk_read chunk ∷ rs) = chunk ++ typed_bytes rs

module _ (a : Ansi) where
  abbrev pub behind_wait : Session a.Color → Bool → Option (Session a.Color)
  behind_wait s true = on_stdin a s []
  behind_wait s false = some s

  -- The task's loop: whether it has ended.
  unfoldable pub stdin_task : Session a.Color → List Read → Option (Session a.Color × Bool)
  stdin_task s [] = some (s, false)
  stdin_task s (ended ∷ rs) = some (s, true)
  stdin_task s (failed ∷ rs) = some (s, true)
  stdin_task s (timed_out ∷ rs) = elim (behind_wait s s.escape_pending) [
    | none ↦ none
    | some t ↦ stdin_task t rs
  ]
  stdin_task s (chunk_read chunk ∷ rs) = elim (on_stdin a s chunk) [
    | none ↦ none
    | some t ↦ stdin_task t rs
  ]

-- Pending bytes in the middle: what is sent first ends where the rest begins.
SameBytes-trans :
    (x e r z : List ℕ) (b : Bool)
    → e ≡ escape_if b
    → SameBytes x e
    → SameBytes (e ++ r) z
    → SameBytes (x ++ r) z
SameBytes-trans [] [] r z b q h k = k
SameBytes-trans [] (d ∷ e) r z b q h k = absurd h
SameBytes-trans (c ∷ x) [] r z b q h k = absurd h
SameBytes-trans (c ∷ x) (d ∷ e) r z false q h k = cc
SameBytes-trans (c ∷ []) (d ∷ []) r z true q (inl i, h) k =
    subst (λ n. SameBytes (n ∷ r) z) (sym i) k
SameBytes-trans (c ∷ []) (d ∷ []) r z true q (inr (i, j), h) k =
    let g : d ≡ 0x1b = cc in absurd (omega (arith, g, j))
SameBytes-trans (c ∷ y ∷ x) (d ∷ []) r z true q (p, h) k = absurd h
SameBytes-trans (c ∷ x) (d ∷ f ∷ e) r z true q h k = cc

SameBytes-chain :
    (x y r z : List ℕ) (b : Bool)
    → SameBytes x (y ++ escape_if b)
    → SameBytes (escape_if b ++ r) z
    → SameBytes (x ++ r) (y ++ z)
SameBytes-chain x [] r z b h k = SameBytes-trans x (escape_if b) r z b refl h k
SameBytes-chain [] (d ∷ y) r z b h k = absurd h
SameBytes-chain (c ∷ x) (d ∷ y) r z b (p, h) k = (p, SameBytes-chain x y r z b h k)

SameBytes-next :
    (e x r y z w : List ℕ) (b : Bool)
    → SameBytes (e ++ x) (y ++ escape_if b)
    → SameBytes (escape_if b ++ r) (z ++ w)
    → SameBytes (e ++ (x ++ r)) ((y ++ z) ++ w)
SameBytes-next e x r y z w b h k =
    rw (sym (append_assoc e x r), append_assoc y z w) (SameBytes-chain (e ++ x) y r (z ++ w) b h k)

module _ (a : Ansi) where
  -- The task's result where the keys went through.
  pub record Typed (s : Session a.Color) (typed : List ℕ) (o : Option (Session a.Color × Bool))
      : Type 0 where
    pub session : Session a.Color
    pub has_ended : Bool
    pub sent : List ℕ
    pub result : o ≡ some (session, has_ended)
    pub pty : session.pty ≡ s.pty ++ sent
    pub writes : session.writes ≡ s.writes
    pub popup : session.popup ≡ s.popup
    pub same :
        SameBytes (escape_if s.escape_pending ++ typed) (sent ++ escape_if session.escape_pending)

  nothing-Typed : (s : Session a.Color) (b : Bool) → Typed s [] (some (s, b))
  nothing-Typed s b = record {
    session = s;
    has_ended = b;
    sent = [];
    result = refl;
    pty = sym (append-nil s.pty);
    writes = refl;
    popup = refl;
    same =
        subst (λ l. SameBytes l (escape_if s.escape_pending))
          (sym (append-nil (escape_if s.escape_pending)))
          (SameBytes-refl (escape_if s.escape_pending));
  }

  -- One chunk and then the rest.
  Typed-next :
      (s : Session a.Color) (chunk typed : List ℕ)
      (f : Session a.Color → Option (Session a.Color × Bool))
      → s.popup.visible ≡ false
      → ((t : Session a.Color) → t.popup.visible ≡ false → Typed t typed (f t))
      → Typed s (chunk ++ typed) (elim (on_stdin a s chunk) [ none ↦ none | some t ↦ f t ])
  Typed-next s chunk typed f h k =
      let (t, sent, e, p, w, q, m) = on_stdin-Forwarded a s chunk h in
      let g = k t (ap (λ (p : PopupState a.Color). p.visible) q ∙ h) in
      record {
        session = g.session;
        has_ended = g.has_ended;
        sent = sent ++ g.sent;
        result = rw e g.result;
        pty = g.pty ∙ ap (λ x. x ++ g.sent) p ∙ append_assoc s.pty sent g.sent;
        writes = g.writes ∙ w;
        popup = g.popup ∙ q;
        same =
            SameBytes-next (escape_if s.escape_pending) chunk typed sent g.sent
              (escape_if g.session.escape_pending) t.escape_pending m g.same;
      }

  Typed-wait :
      (s : Session a.Color) (typed : List ℕ) (f : Session a.Color → Option (Session a.Color × Bool))
      (b : Bool)
      → s.popup.visible ≡ false
      → ((t : Session a.Color) → t.popup.visible ≡ false → Typed t typed (f t))
      → Typed s typed (elim (behind_wait a s b) [ none ↦ none | some t ↦ f t ])
  Typed-wait s typed f true h k = Typed-next s [] typed f h k
  Typed-wait s typed f false h k = k s h

  -- While no popup is on the screen the whole of what is typed goes to the shell, however the reads
  -- cut it and wherever a pending ESC waits in vain: the task does not panic, it draws nothing, and
  -- the bytes on the PTY, with an ESC that is still pending, are those that were read, in their
  -- order, but for 0x08 that may be sent as 0x7f.
  pub stdin_task-Typed :
      (s : Session a.Color) (rs : List Read)
      → s.popup.visible ≡ false
      → Typed s (typed_bytes rs) (stdin_task a s rs)
  unfolding stdin_task
  stdin_task-Typed s [] h = nothing-Typed s false
  stdin_task-Typed s (ended ∷ rs) h = nothing-Typed s true
  stdin_task-Typed s (failed ∷ rs) h = nothing-Typed s true
  stdin_task-Typed s (timed_out ∷ rs) h =
      Typed-wait s (typed_bytes rs) (λ t. stdin_task a t rs) s.escape_pending h
        λ t. stdin_task-Typed t rs
  stdin_task-Typed s (chunk_read chunk ∷ rs) h =
      Typed-next s chunk (typed_bytes rs) (λ t. stdin_task a t rs) h λ t. stdin_task-Typed t rs
