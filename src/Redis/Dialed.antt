-- ===== src/Redis/Dialed.antt =====
-- internal/redis/client.go: what Client.dial leaves of a connection, step by step.
use llmgateway_go.Prelude.{
  ℕ, suc, ◌+◌, ◌≡◌, refl, subst, [], ◌∷◌, ◌++◌, Option, none, some, Bool, true, false, arith,
  Bool-cases, inl, inr,
}
use llmgateway_go.Prelude.Results.{Result, ok, err}
use llmgateway_go.Redis.Resp.{Bytes, ReplyError, read_status}
use llmgateway_go.Redis.Client.{
  Options, Conn, Net, Sockets, ConnError, not_cleared, no_deadline, or_hang_up, finish_dial,
  authenticated, read_auth, auth_or_skip, shake_or_skip, connected, dial,
}
use llmgateway_go.Redis.Replies.{RepliesOnce, IsClean, read_status-rest}

-- A connection that is made is counted as open, and one that is not is closed.
abbrev pub Dialed : {W : Type 0} → ℕ → Result ConnError Conn × Sockets W → Type 0
Dialed o (ok cn, s) = (s.opened ≡ suc o) × IsClean cn
Dialed o (err e, s) = s.opened ≡ o

module _ {W : Type 0} (net : Net W) where
  or_hang_up-Dialed :
      (o : ℕ) (cn : Conn) (e : ConnError) (next : Sockets W → Result ConnError Conn × Sockets W)
      (s : Sockets W) (p : Bool × W)
      → s.opened ≡ suc o
      → ((s' : Sockets W) → s'.opened ≡ suc o → Dialed o (next s'))
      → Dialed o (or_hang_up net cn e next s p)
  or_hang_up-Dialed o cn e next s (true, w) h k = k (record s { world = w }) h
  or_hang_up-Dialed o cn e next s (false, w) h k = omega (arith, h)

  finish_dial-Dialed :
      (o : ℕ) (cn : Conn) (s : Sockets W)
      → IsClean cn
      → s.opened ≡ suc o
      → Dialed o (finish_dial net cn s)
  finish_dial-Dialed o cn s c h =
      let next : Sockets W → Result ConnError Conn × Sockets W = λ s'. (ok cn, s') in
      or_hang_up-Dialed o cn not_cleared next s (net.clear_deadline cn.id s.world) h
        (λ s' h'. (h', c))

  authenticated-Dialed :
      (o : ℕ) (cn : Conn) (s : Sockets W) (r : Result ReplyError Bytes)
      → ((rest : Bytes) → r ≡ ok rest → rest ≡ [])
      → s.opened ≡ suc o
      → Dialed o (authenticated net cn s r)
  authenticated-Dialed o cn s (err e) c h = omega (arith, h)
  authenticated-Dialed o cn s (ok rest) c h =
      finish_dial-Dialed o (record cn { buffered = rest }) s (c rest refl) h

  read_auth-Dialed :
      RepliesOnce net
      → (o : ℕ) (cn : Conn) (s : Sockets W) → IsClean cn
      → s.opened ≡ suc o
      → Dialed o (read_auth net cn s)
  read_auth-Dialed once o cn s c h =
      let (bytes, w) = net.arrives cn.id s.world in
      authenticated-Dialed o cn (record s { world = w }) (read_status (cn.buffered ++ bytes))
        (λ rest e.
          read_status-rest bytes rest (once cn.id s.world)
            (subst (λ b. read_status (b ++ bytes) ≡ ok rest) c e))
        h

  auth_or_skip-Dialed :
      RepliesOnce net
      → (o : ℕ) (password : Bytes) (cn : Conn) (s : Sockets W) → IsClean cn
      → s.opened ≡ suc o
      → Dialed o (auth_or_skip net password cn s)
  auth_or_skip-Dialed once o [] cn s c h = finish_dial-Dialed o cn s c h
  auth_or_skip-Dialed once o (b ∷ password) cn s c h =
      or_hang_up-Dialed o cn _ (read_auth net cn) s _ h
        (λ s' h'. read_auth-Dialed once o cn s' c h')

  shake_or_skip-Dialed :
      RepliesOnce net
      → (o : ℕ) (opts : Options) (cn : Conn) (s : Sockets W) → IsClean cn
      → s.opened ≡ suc o
      → Dialed o (shake_or_skip net opts cn s)
  shake_or_skip-Dialed once o opts cn s c h = elim (Bool-cases opts.tls) [
    | inl t ↦ rw t (
        or_hang_up-Dialed o cn _ (auth_or_skip net opts.password cn) s _ h
          (λ s' h'. auth_or_skip-Dialed once o opts.password cn s' c h'))
    | inr t ↦ rw t (auth_or_skip-Dialed once o opts.password cn s c h)
  ]

  connected-Dialed :
      RepliesOnce net
      → (opts : Options) (s : Sockets W) (p : Option ℕ × W)
      → Dialed s.opened (connected net opts s p)
  connected-Dialed once opts s (none, w) = refl
  connected-Dialed once opts s (some id, w) =
      let cn : Conn = record { id = id; buffered = [] } in
      or_hang_up-Dialed s.opened cn no_deadline (shake_or_skip net opts cn)
        (record s { opened = s.opened + 1 }) (net.set_deadline id w) (omega arith)
        (λ s' h'. shake_or_skip-Dialed once s.opened opts cn s' refl h')

  pub dial-Dialed :
      RepliesOnce net → (opts : Options) (s : Sockets W) → Dialed s.opened (dial net opts s)
  unfolding dial
  dial-Dialed once opts s = connected-Dialed once opts s (net.connect s.world)
