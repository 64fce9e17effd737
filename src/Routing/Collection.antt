-- ===== src/Routing/Collection.antt =====
-- On the candidates that the sources add (agent-service/app/routing/entity_merge.py).
use productline_agent.Base.{
  ◌≡◌, ◌≢◌, refl, sym, Option, none, some, List, [], ◌∷◌, Text, text_eq, Member, inl, inr, Result,
  ok, err, ok_injective,
}
use productline_agent.Base.Dict
use productline_agent.Routing.Entities.{
  RoutingEntityName, name_eq, EntitySource, user_message, confirmed_session, page_context,
  session_candidate, RouterEntities, SessionContext, InvalidEntityCandidate, all_names, Candidates,
  candidates_of, put, append_candidate, append_optional, then_add, for_names, append_entities,
  append_confirmed_session, append_session_candidates, validated_value, confirmed_entity,
  append_all, texts_or_empty, name_value, order_id, task_id,
}
use productline_agent.Routing.Merge.{if_given}
use productline_agent.Routing.Message.{
  IsListed, IsAlone, put-cases, with_entity-IsListed, with_entity-IsAlone,
}

abbrev pub Adding : Type 0
Adding = Result InvalidEntityCandidate Candidates

-- The property holds of the candidates, if there is no error.
abbrev pub Holds : (Candidates → Type 0) → Adding → Type 0
Holds P r = (cs : Candidates) → r ≡ ok cs → P cs

module _ (P : Candidates → Type 0) where
  pub Holds-ok : (cs : Candidates) → P cs → Holds P (ok cs)
  Holds-ok cs p later h = rw (sym (ok_injective cs later h)) p

  pub then_add-Holds :
      (Q : Candidates → Type 0) (r : Adding) (f : Candidates → Adding)
      → Holds Q r
      → ((cs : Candidates) → Q cs → Holds P (f cs))
      → Holds P (then_add r f)
  then_add-Holds Q (ok cs) f q k = k cs (q cs refl)
  then_add-Holds Q (err e) f q k = λ cs h. cc

  pub for_names-Holds :
      (f : RoutingEntityName → Candidates → Adding) (ns : List RoutingEntityName) (cs : Candidates)
      → ((m : RoutingEntityName) (cs : Candidates) → P cs → Holds P (f m cs))
      → P cs
      → Holds P (for_names f ns cs)
  for_names-Holds f [] cs keeps p = Holds-ok cs p
  for_names-Holds f (n ∷ ns) cs keeps p =
      then_add-Holds P (f n cs) (for_names f ns) (keeps n cs p)
        (λ later q. for_names-Holds f ns later keeps q)

  -- What one name brings about, and all keep.
  pub for_names-reached :
      (f : RoutingEntityName → Candidates → Adding) (n : RoutingEntityName)
      (ns : List RoutingEntityName) (cs : Candidates)
      → Member n ns
      → ((m : RoutingEntityName) (cs : Candidates) → P cs → Holds P (f m cs))
      → ((cs : Candidates) → Holds P (f n cs))
      → Holds P (for_names f ns cs)
  for_names-reached f n [] cs m keeps brings = elim m [ ]
  for_names-reached f n (k ∷ ns) cs (inl same) keeps brings =
      then_add-Holds P (f k cs) (for_names f ns) (rw same (brings cs))
        (λ later q. for_names-Holds f ns later keeps q)
  for_names-reached f n (k ∷ ns) cs (inr m) keeps brings =
      then_add-Holds (λ c. Unit) (f k cs) (for_names f ns) (λ later h. tt)
        (λ later q. for_names-reached f n ns later m keeps brings)

module _ (n : RoutingEntityName) (v : Text) where
  abbrev pub Listed : Candidates → Type 0
  Listed cs = IsListed v (candidates_of n cs)

  abbrev pub Alone : Candidates → Type 0
  Alone cs = IsAlone v (candidates_of n cs)

  abbrev pub Named : Candidates → Type 0
  Named cs = Listed cs × Alone cs

  pub put-Listed :
      (m : RoutingEntityName) (source : EntitySource) (cs : Candidates)
      (r : Result InvalidEntityCandidate Text)
      → Listed cs
      → Holds Listed (put m source cs r)
  put-Listed m source cs (err e) h = λ later q. cc
  put-Listed m source cs (ok x) h = Holds-ok Listed _ (elim (put-cases n m source x cs) [
    | inl (same, new) ↦
        rw new
          (with_entity-IsListed v (record { value = x; source = source }) (candidates_of n cs) h)
    | inr old ↦ rw old h
  ])

  pub put-Alone :
      (m : RoutingEntityName) (source : EntitySource) (cs : Candidates)
      (r : Result InvalidEntityCandidate Text)
      → ((x : Text) → r ≡ ok x → source ≡ user_message → m ≡ n → x ≡ v)
      → Alone cs
      → Holds Alone (put m source cs r)
  put-Alone m source cs (err e) own h = λ later q. cc
  put-Alone m source cs (ok x) own h = Holds-ok Alone _ (elim (put-cases n m source x cs) [
    | inl (same, new) ↦ rw new (
        with_entity-IsAlone v (record { value = x; source = source }) (candidates_of n cs)
          (λ user. own x refl user same) h)
    | inr old ↦ rw old h
  ])

  -- Another source adds nothing of the user's.
  append_candidate-Named :
      (m : RoutingEntityName) (value : Option Text) (source : EntitySource) (cs : Candidates)
      → source ≢ user_message
      → Named cs
      → Holds Named (append_candidate m value source cs)
  unfolding append_candidate
  append_candidate-Named m value source cs other h = λ later q. (
    put-Listed m source cs (validated_value m value source) h.0 later q,
    put-Alone m source cs (validated_value m value source) (λ x e user. absurd (other user)) h.1
        later q,
  )

  append_optional-Named :
      (m : RoutingEntityName) (value : Option Text) (source : EntitySource) (cs : Candidates)
      → source ≢ user_message
      → Named cs
      → Holds Named (append_optional m value source cs)
  append_optional-Named m none source cs other h = Holds-ok Named cs h
  append_optional-Named m (some t) source cs other h =
      append_candidate-Named m (some t) source cs other h

  append_all-Named :
      (m : RoutingEntityName) (ts : List Text) (cs : Candidates)
      → Named cs
      → Holds Named (append_all m ts cs)
  append_all-Named m [] cs h = Holds-ok Named cs h
  append_all-Named m (t ∷ ts) cs h =
      then_add-Holds Named Named (append_candidate m (some t) session_candidate cs)
        (append_all m ts) (append_candidate-Named m (some t) session_candidate cs (λ e. cc) h)
        (λ later q. append_all-Named m ts later q)

  confirmed_entity-Named :
      (m : RoutingEntityName) (o : Option (Option Text)) (cs : Candidates)
      → Named cs
      → Holds Named (confirmed_entity m o cs)
  confirmed_entity-Named m none cs h = Holds-ok Named cs h
  confirmed_entity-Named m (some t) cs h =
      append_candidate-Named m t confirmed_session cs (λ e. cc) h

  pub append_confirmed_session-Named :
      (context : SessionContext) (cs : Candidates)
      → Named cs
      → Holds Named (append_confirmed_session context cs)
  unfolding append_confirmed_session
  append_confirmed_session-Named context cs h =
      then_add-Holds Named Named _
        (for_names (λ m. confirmed_entity m (Dict.lookup (name_value m) context.confirmed_entities))
          all_names)
        (then_add-Holds Named Named
          (append_optional order_id context.current_order_id confirmed_session cs)
          (append_optional task_id context.current_task_id confirmed_session)
          (append_optional-Named order_id context.current_order_id confirmed_session cs (λ e. cc) h)
          (λ later q.
            append_optional-Named task_id context.current_task_id confirmed_session later (λ e. cc)
              q))
        (λ later q.
          for_names-Holds Named _ all_names later
            (λ m c k.
              confirmed_entity-Named m (Dict.lookup (name_value m) context.confirmed_entities) c k)
            q)

  pub append_page-Named :
      (page : RouterEntities) (cs : Candidates)
      → Named cs
      → Holds Named (append_entities page page_context cs)
  unfolding append_entities
  append_page-Named page cs h =
      for_names-Holds Named _ all_names cs
        (λ m c k. append_optional-Named m (page.of_name m) page_context c (λ e. cc) k) h

  pub append_session_candidates-Named :
      (context : SessionContext) (cs : Candidates)
      → Named cs
      → Holds Named (append_session_candidates context cs)
  unfolding append_session_candidates
  append_session_candidates-Named context cs h =
      for_names-Holds Named _ all_names cs
        (λ m c k.
          append_all-Named m
            (texts_or_empty (Dict.lookup (name_value m) context.candidate_entities)) c k)
        h

  pub if_given-Named :
      {A : Type 0} (o : Option A) (f : A → Candidates → Adding) (cs : Candidates)
      → ((a : A) (c : Candidates) → Named c → Holds Named (f a c))
      → Named cs
      → Holds Named (if_given o f cs)
  if_given-Named none f cs keeps h = Holds-ok Named cs h
  if_given-Named (some a) f cs keeps h = keeps a cs h
