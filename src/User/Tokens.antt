-- ===== src/User/Tokens.antt =====
-- Looking up the token of a resource first leaves the descriptors as they are.
use cuddl.Base.{ℕ, zero, suc, refl, Option, none, some, List}
use cuddl.Act.{pure, hang, gets, ◌>>=◌}
use cuddl.Act.Triples.{Triple, Triple-bind}
use cuddl.Ioctl.Commands
use cuddl.Kernel.{Reply, ResourceId, Token}
use cuddl.User.{Env, U}
use cuddl.User.Calls.{deliver, deliver_text, data_call}
use cuddl.User.Descriptors.{
  Open, Left, Sure, Sure-Ends, done-Left, gets-Sure, adjust-Sure, data_call-Left,
}
use cuddl.User.Waits.{then-Left}
use cuddl.User.Memregion.{or_return, memregion_in, claimed_memregion}
use cuddl.User.Eventsrc.{eventsrc_in, claimed_eventsrc}
use cuddl.User.Queries.{
  info_data, with_memregion_token, with_eventsrc_token, get_memregion_info_for_id,
  get_eventsrc_info_for_id,
}
use cuddl.CStr.{Str}

module _ (maps : List ℕ) (env : Env) (l : List ℕ) where
  delivered-Sure : Triple (Open maps l) deliver (Sure maps l)
  unfolding deliver
  delivered-Sure = adjust-Sure maps l _ (λ p. refl) (λ p. refl)

  text-Sure : (s : Str) (n : ℕ) → Triple (Open maps l) (deliver_text s n) (Sure maps l)
  unfolding deliver_text
  text-Sure s n = adjust-Sure maps l _ (λ p. refl) (λ p. refl)

  nothing-Sure : Triple (Open maps l) (pure tt) (Sure maps l)
  unfolding pure
  nothing-Sure = record { at = λ p h. h }

module _ (env : Env) (maps fds : List ℕ) where
  pub copied-Left :
      (request : ℕ → Commands.Request)
      → Triple (Open maps fds) (data_call env request deliver) (Left maps fds)
  copied-Left request = data_call-Left maps env fds request deliver λ l. delivered-Sure maps env l

  pub text-Left :
      (request : ℕ → Commands.Request) (s : Str) (n : ℕ)
      → Triple (Open maps fds) (data_call env request (deliver_text s n)) (Left maps fds)
  text-Left request s n = data_call-Left maps env fds request _ λ l. text-Sure maps env l s n

  pub bare-Left :
      (request : ℕ → Commands.Request)
      → Triple (Open maps fds) (data_call env request (pure tt)) (Left maps fds)
  bare-Left request = data_call-Left maps env fds request _ λ l. nothing-Sure maps env l

  or_return-Left :
      (n : ℕ) (m : U ℕ)
      → Triple (Open maps fds) m (Left maps fds)
      → Triple (Open maps fds) (or_return n m) (Left maps fds)
  or_return-Left zero m t = t
  or_return-Left (suc n) m t = done-Left maps fds (suc n)

  hung-Left : {A : Type 0} → Triple (Open maps fds) hang (Left maps {A = A} fds)
  unfolding hang
  hung-Left = record { at = λ p h. tt }

  memregion_in-Left :
      (out : Option Reply) → Triple (Open maps fds) (memregion_in out) (Left maps fds)
  unfolding memregion_in
  memregion_in-Left (some (Reply.memregion_info info)) = done-Left maps fds info
  memregion_in-Left (some (Reply.eventsrc_info info)) = hung-Left
  memregion_in-Left (some (Reply.resource_id id)) = hung-Left
  memregion_in-Left (some (Reply.text_info s)) = hung-Left
  memregion_in-Left none = hung-Left

  eventsrc_in-Left : (out : Option Reply) → Triple (Open maps fds) (eventsrc_in out) (Left maps fds)
  unfolding eventsrc_in
  eventsrc_in-Left (some (Reply.eventsrc_info info)) = done-Left maps fds info
  eventsrc_in-Left (some (Reply.memregion_info info)) = hung-Left
  eventsrc_in-Left (some (Reply.resource_id id)) = hung-Left
  eventsrc_in-Left (some (Reply.text_info s)) = hung-Left
  eventsrc_in-Left none = hung-Left

  pub claimed_memregion-Left : Triple (Open maps fds) claimed_memregion (Left maps fds)
  unfolding claimed_memregion
  claimed_memregion-Left =
      Triple-bind (gets (λ p. p.out)) _ (gets-Sure maps fds (λ p. p.out)) (Sure-Ends maps fds fds)
        λ out. memregion_in-Left out

  pub claimed_eventsrc-Left : Triple (Open maps fds) claimed_eventsrc (Left maps fds)
  unfolding claimed_eventsrc
  claimed_eventsrc-Left =
      Triple-bind (gets (λ p. p.out)) _ (gets-Sure maps fds (λ p. p.out)) (Sure-Ends maps fds fds)
        λ out. eventsrc_in-Left out

  module _ (id : ResourceId) (f : Token → U ℕ)
      (t : (token : Token) → Triple (Open maps fds) (f token) (Left maps fds)) where
    pub with_memregion_token-Left :
        Triple (Open maps fds) (with_memregion_token env id f) (Left maps fds)
    unfolding with_memregion_token get_memregion_info_for_id
    with_memregion_token-Left =
        then-Left maps fds (get_memregion_info_for_id env id) _
          (copied-Left (λ pid. Commands.get_memregion_info (info_data id pid)))
          λ ret.
            or_return-Left ret (claimed_memregion >>= λ info. f info.token)
              (then-Left maps fds claimed_memregion _ claimed_memregion-Left λ info. t info.token)

    pub with_eventsrc_token-Left :
        Triple (Open maps fds) (with_eventsrc_token env id f) (Left maps fds)
    unfolding with_eventsrc_token get_eventsrc_info_for_id
    with_eventsrc_token-Left =
        then-Left maps fds (get_eventsrc_info_for_id env id) _
          (copied-Left (λ pid. Commands.get_eventsrc_info (info_data id pid)))
          λ ret.
            or_return-Left ret (claimed_eventsrc >>= λ info. f info.token)
              (then-Left maps fds claimed_eventsrc _ claimed_eventsrc-Left λ info. t info.token)
