-- ===== src/Routing/Precedence.antt =====
-- On the value of the message in the result of the merge
-- (agent-service/app/routing/entity_merge.py).
use productline_agent.Base.{
  ◌≡◌, ◌≢◌, refl, sym, ◌∙◌, Option, none, some, List, [], ◌∷◌, ◌++◌, Text, text_eq, Member, inl,
  inr, ◌⊎◌, Result, ok, err, ok_injective, some_injective, Bool-cases, ◌==◌, eq_iff, ap,
  if◌then◌else◌,
}
use productline_agent.Base.Dict
use productline_agent.Base.Dict.{lookup-insert_self}
use productline_agent.Base.Sorting.{sorted}
use productline_agent.Routing.Entities.{
  RoutingEntityName, name_eq, order_id, task_id, issue_id, batch_id, product_type, satellite_type,
  user_message, page_context, RouterEntities, SessionContext, InvalidEntityCandidate, all_names,
  SourcedEntity, Candidates, candidates_of, put, append_candidate, append_optional, with_entity,
  append_entities, append_confirmed_session, append_session_candidates, validated_value,
}
use productline_agent.Routing.Merge.{
  distinct_candidates, group, highest_each, highest_candidates, collect, if_given, select, resolve,
  add_field, chosen_entities, EntityMergeResult, merge_routing_entities, resolved,
}
use productline_agent.Routing.Message.{with_entity_lists, select-IsAlone}
use productline_agent.Routing.Collection.{
  Adding, Holds, Holds-ok, then_add-Holds, for_names-Holds, for_names-reached, Listed, Alone, Named,
  put-Listed, put-Alone, append_confirmed_session-Named, append_page-Named,
  append_session_candidates-Named, if_given-Named,
}

known_name : (n : RoutingEntityName) → Member n all_names
known_name order_id = inl refl
known_name task_id = inr (inl refl)
known_name issue_id = inr (inr (inl refl))
known_name batch_id = inr (inr (inr (inl refl)))
known_name product_type = inr (inr (inr (inr (inl refl))))
known_name satellite_type = inr (inr (inr (inr (inr (inl refl)))))

nobody : (n : RoutingEntityName) (v : Text) → Alone n v []
unfolding Dict.lookup
nobody n v = tt

module _ (n : RoutingEntityName) (v t : Text) (message : RouterEntities) where
  append_user-Listed_old :
      (m : RoutingEntityName) (cs : Candidates) (o : Option Text)
      → Listed n v cs
      → Holds (Listed n v) (append_optional m o user_message cs)
  unfolding append_candidate
  append_user-Listed_old m cs none h = Holds-ok (Listed n v) cs h
  append_user-Listed_old m cs (some u) h =
      put-Listed n v m user_message cs (validated_value m (some u) user_message) h

  put_named :
      (cs : Candidates) (r : Result InvalidEntityCandidate Text)
      → r ≡ ok v
      → Holds (Listed n v) (put n user_message cs r)
  put_named cs (err e) h = λ later q. cc
  put_named cs (ok x) h = Holds-ok (Listed n v) _ (
      rw
        (lookup-insert_self n
          (with_entity (record { value = x; source = user_message }) (candidates_of n cs)) cs)
        (rw (ok_injective x v h) (
          with_entity_lists (record { value = v; source = user_message }) (candidates_of n cs)
            refl)))

  append_user-Listed :
      (cs : Candidates) (o : Option Text)
      → o ≡ some t
      → validated_value n (some t) user_message ≡ ok v
      → Holds (Listed n v) (append_optional n o user_message cs)
  unfolding append_candidate
  append_user-Listed cs none h valid = cc
  append_user-Listed cs (some u) h valid =
      put_named cs (validated_value n (some u) user_message) (rw (some_injective u t h) valid)

  append_user-Alone :
      (m : RoutingEntityName) (cs : Candidates) (o : Option Text)
      → (m ≡ n → o ≡ some t)
      → validated_value n (some t) user_message ≡ ok v
      → Alone n v cs
      → Holds (Alone n v) (append_optional m o user_message cs)
  unfolding append_candidate
  append_user-Alone m cs none own valid h = Holds-ok (Alone n v) cs h
  append_user-Alone m cs (some u) own valid h =
      put-Alone n v m user_message cs (validated_value m (some u) user_message)
        (λ x e user same. ok_injective x v (sym e ∙ rw (same, some_injective u t (own same)) valid))
        h

  append_message-Named :
      message.of_name n ≡ some t
      → validated_value n (some t) user_message ≡ ok v
      → Holds (Named n v) (append_entities message user_message [])
  unfolding append_entities
  append_message-Named named valid = λ later q. (
    for_names-reached (Listed n v) _ n all_names [] (known_name n)
        (λ m cs h. append_user-Listed_old m cs (message.of_name m) h)
        (λ cs. append_user-Listed cs (message.of_name n) named valid) later q,
    for_names-Holds (Alone n v) _ all_names []
        (λ m cs h. append_user-Alone m cs (message.of_name m) (λ same. rw same named) valid h)
        (nobody n v) later q,
  )

  collect-Named :
      (page : Option RouterEntities) (session : Option SessionContext)
      → message.of_name n ≡ some t
      → validated_value n (some t) user_message ≡ ok v
      → Holds (Named n v) (collect message page session)
  unfolding collect
  collect-Named page session named valid =
      then_add-Holds (Named n v) (Named n v) _ (if_given session append_session_candidates)
        (then_add-Holds (Named n v) (Named n v) _
          (if_given page (λ p. append_entities p page_context))
          (then_add-Holds (Named n v) (Named n v) (append_entities message user_message [])
            (if_given session append_confirmed_session) (append_message-Named named valid)
            (λ cs h.
              if_given-Named n v session append_confirmed_session cs
                (append_confirmed_session-Named n v) h))
          (λ cs h.
            if_given-Named n v page (λ p. append_entities p page_context) cs (append_page-Named n v)
              h))
        (λ cs h.
          if_given-Named n v session append_session_candidates cs
            (append_session_candidates-Named n v) h)

lookup-cons :
    (n m : RoutingEntityName) (s : SourcedEntity) (d : List (RoutingEntityName × SourcedEntity))
    → Dict.lookup n ((m, s) ∷ d) ≡ (if m == n then some s else Dict.lookup n d)
unfolding Dict.lookup
lookup-cons n m s d = refl

select_nil : select [] ≡ none
unfolding select distinct_candidates group highest_each sorted highest_candidates
select_nil = refl

-- A field with a selected candidate is in the result.
module _ (n : RoutingEntityName) (s : SourcedEntity) where
  chosen_entities-lookup :
      (m : RoutingEntityName) (o : Option SourcedEntity)
      (d : List (RoutingEntityName × SourcedEntity))
      → (m ≡ n → o ≡ some s)
      → (m ≢ n → Dict.lookup n d ≡ some s)
      → Dict.lookup n (chosen_entities m o ++ d) ≡ some s
  chosen_entities-lookup m none d own rest = rest (λ same. cc (own same))
  chosen_entities-lookup m (some x) d own rest =
      rw (lookup-cons n m x d) (elim (Bool-cases (m == n)) [
        | inl same ↦ rw same (own ((eq_iff m n).0 same))
        | inr other ↦ rw other (rest (λ same. cc (other, (eq_iff m n).1 same)))
      ])

  add_field-lookup :
      (m : RoutingEntityName) (es : List SourcedEntity) (later : EntityMergeResult)
      → (m ≡ n → select es ≡ some s)
      → (m ≢ n → Dict.lookup n later.entities ≡ some s)
      → Dict.lookup n (add_field m es later).entities ≡ some s
  add_field-lookup m [] later own rest = rest (λ same. cc (own same, select_nil))
  add_field-lookup m (e ∷ es) later own rest =
      chosen_entities-lookup m (select (e ∷ es)) later.entities own rest

  resolve-lookup :
      (ns : List RoutingEntityName) (cs : Candidates)
      → Member n ns
      → select (candidates_of n cs) ≡ some s
      → Dict.lookup n (resolve ns cs).entities ≡ some s
  unfolding resolve
  resolve-lookup [] cs m h = elim m [ ]
  resolve-lookup (k ∷ ns) cs m h =
      add_field-lookup k (candidates_of k cs) (resolve ns cs) (λ same. rw same h)
        (λ other. later (resolve-lookup ns cs) other m)
    where
      later :
          (Member n ns
            → select (candidates_of n cs) ≡ some s
            → Dict.lookup n (resolve ns cs).entities ≡ some s)
          → k ≢ n
          → (k ≡ n) ⊎ Member n ns
          → Dict.lookup n (resolve ns cs).entities ≡ some s
      later f other (inl same) = absurd (other same)
      later f other (inr m) = f m h

-- If the merge returns a result, and the message names a value for a field that is valid once
-- white space is taken off its ends, then the result holds that value for the field, with the
-- message as its source, whatever the page and the session say.
pub merge_routing_entities_message :
    (message : RouterEntities) (page : Option RouterEntities) (session : Option SessionContext)
    (n : RoutingEntityName) (t v : Text) (r : EntityMergeResult)
    → message.of_name n ≡ some t
    → validated_value n (some t) user_message ≡ ok v
    → merge_routing_entities message page session ≡ ok r
    → (s : SourcedEntity) × (Dict.lookup n r.entities ≡ some s)
      × (s.value ≡ v)
      × (s.source ≡ user_message)
unfolding merge_routing_entities
merge_routing_entities_message message page session n t v r named valid h =
    go (collect message page session) (collect-Named n v t message page session named valid) h
  where
    go :
        (x : Adding)
        → Holds (Named n v) x
        → resolved x ≡ ok r
        → (s : SourcedEntity) × (Dict.lookup n r.entities ≡ some s)
          × (s.value ≡ v)
          × (s.source ≡ user_message)
    go (ok cs) k e =
        let (listed, alone) = k cs refl in
        let (s, chosen, value, source) = select-IsAlone v (candidates_of n cs) listed alone in
        (
          s,
          ap (λ (x : EntityMergeResult). Dict.lookup n x.entities)
                (sym (ok_injective (resolve all_names cs) r e))
              ∙ resolve-lookup n s all_names cs (known_name n) chosen,
          value,
          source,
        )
    go (err x) k e = cc
