-- ===== src/Client/Names.antt =====
-- src/connection_cli.rs: the connection that a user names by its id or by its name. An error keeps no
-- text; that no connection, or more than one, has the name is `other`.
use mathlib.Core.Path.{ap, sym}
use tunmux.Api.{
  ConnectionId, ConnectionScope, ConnectionSummary, PrivilegedRequest, PrivilegedResponse, Uuids,
  bool, connection, connection_id, connection_list, error, global, list_connections, mine, text,
}
use tunmux.Client.{Ask, Transport, list_connections_of, send, the_list}
use tunmux.Client.Requests.{listed}
use tunmux.Daemon.Store.{of_result}
use tunmux.Error.{AppError, Result, err, ok}
use tunmux.Exec.{Outcome, bind-done, continue, done, pure, raise, step, ◌>>=◌}
use tunmux.Prelude.{
  ℕ_eq, List_eq, Option_eq, Bool, List, Option, [], inl, inr, none, refl, retain, some, ◌==◌, ◌∙◌,
  ◌∷◌, ◌≡◌, ◌⊎◌,
}
use tunmux.Text.{Str}

abbrev pub is_named : Str → ConnectionSummary → Bool
is_named s c = c.name == some s

unfoldable pub by_name : Transport → Str → ConnectionScope → Ask (List ConnectionSummary)
unfolding list_connections_of
by_name t s scope = do
  connections ← list_connections_of t scope
  pure (retain (is_named s) connections)

abbrev or_global : Transport → Str → List ConnectionSummary → Ask (List ConnectionSummary)
or_global t s [] = by_name t s global
or_global t s (c ∷ cs) = pure (c ∷ cs)

abbrev the_only : List ConnectionSummary → Ask ConnectionId
the_only [] = raise tunmux.Error.other
the_only (c ∷ []) = pure c.id
the_only (c ∷ d ∷ cs) = raise tunmux.Error.other

abbrev parsed_or_named : Transport → Str → Option ConnectionId → Ask ConnectionId
parsed_or_named t s (some id) = pure id
parsed_or_named t s none = do
  first ← by_name t s mine
  matches ← or_global t s first
  the_only matches

unfoldable pub resolve_id : Uuids → Transport → Str → Ask ConnectionId
unfolding by_name
resolve_id u t s = parsed_or_named t s (u.parse_str s)

module _ (t : Transport) (s : Str) where
  -- the connections of that name in a list that is asked for after the requests `sent`
  abbrev pub named_in : List PrivilegedRequest → ConnectionScope → List ConnectionSummary
  named_in sent scope = retain (is_named s) (listed (t.send sent (list_connections scope)))

  -- The id is of the only one of that name among the user's own or, if none has it, the global ones.
  abbrev pub IsTheOnly : List PrivilegedRequest → ConnectionId → Type 0
  IsTheOnly sent id =
      (c : ConnectionSummary) × (c.id ≡ id)
      × ((named_in sent mine ≡ c ∷ [])
          ⊎ ((named_in sent mine ≡ []) × (named_in (list_connections mine ∷ sent) global ≡ c ∷ [])))

  by_name-done :
      (scope : ConnectionScope) (sent : List PrivilegedRequest) (cs : List ConnectionSummary)
      → (by_name t s scope sent).0 ≡ done cs
      → (named_in sent scope ≡ cs) × ((by_name t s scope sent).1 ≡ list_connections scope ∷ sent)
  unfolding by_name list_connections_of send ◌>>=◌ pure step raise
  by_name-done scope sent cs h = by_answer (t.send sent (list_connections scope)) h
    where
      after : List PrivilegedRequest
      after = list_connections scope ∷ sent

      asked :
          Result PrivilegedResponse
          → Outcome AppError (List ConnectionSummary) × List PrivilegedRequest
      asked a =
          let (r, u) = continue (of_result a) the_list after in
          continue r (λ connections. pure (retain (is_named s) connections)) u

      by_answer :
          (a : Result PrivilegedResponse)
          → (asked a).0 ≡ done cs
          → (retain (is_named s) (listed a) ≡ cs) × ((asked a).1 ≡ after)
      by_answer (ok (connection_list ds)) k = (cc, refl)
      by_answer (ok tunmux.Api.unit) k = absurd (cc)
      by_answer (ok (bool b)) k = absurd (cc)
      by_answer (ok (text x)) k = absurd (cc)
      by_answer (ok (error c)) k = absurd (cc)
      by_answer (ok (connection_id id)) k = absurd (cc)
      by_answer (ok (connection c)) k = absurd (cc)
      by_answer (err e) k = absurd (cc)

  the_only-done :
      (cs : List ConnectionSummary) (sent : List PrivilegedRequest) (id : ConnectionId)
      → (the_only cs sent).0 ≡ done id
      → (c : ConnectionSummary) × (c.id ≡ id) × (cs ≡ c ∷ [])
  unfolding pure raise
  the_only-done [] sent id h = absurd (cc)
  the_only-done (c ∷ []) sent id h = (c, cc, refl)
  the_only-done (c ∷ d ∷ cs) sent id h = absurd (cc)

  named-IsTheOnly :
      (sent : List PrivilegedRequest) (id : ConnectionId)
      → (parsed_or_named t s none sent).0 ≡ done id
      → IsTheOnly sent id
  unfolding pure
  named-IsTheOnly sent id h =
      let (first, found, rest) =
        bind-done (by_name t s mine) (λ first. or_global t s first >>= the_only) sent id h in
      let (own, asked) = by_name-done mine sent first found in by_own first own asked rest
    where
      by_own :
          (first : List ConnectionSummary)
          → named_in sent mine ≡ first
          → (by_name t s mine sent).1 ≡ list_connections mine ∷ sent
          → ((or_global t s first >>= the_only) (by_name t s mine sent).1).0 ≡ done id
          → IsTheOnly sent id
      by_own [] own asked k =
          let (cs, found, ended) =
            bind-done (by_name t s global) the_only (by_name t s mine sent).1 id k in
          let (c, same, only) = the_only-done cs _ id ended in
          let (named, _) = by_name-done global _ cs found in
          (c, same, inr (own, ap (λ u. named_in u global) (sym asked) ∙ named ∙ only))
      by_own (c ∷ cs) own asked k =
          let (ds, found, ended) =
            bind-done (pure (c ∷ cs)) the_only (by_name t s mine sent).1 id k in
          let (d, same, only) = the_only-done ds _ id ended in (d, same, inl (own ∙ cc))

  -- What a name stands for is never guessed: if `resolve_id` gives an id, then the text is that id, or
  -- it is the id of the only connection of that name among the user's own, or none of these has the
  -- name and it is the id of the only global one.
  pub resolve_id-IsTheOnly :
      (u : Uuids) (sent : List PrivilegedRequest) (id : ConnectionId)
      → (resolve_id u t s sent).0 ≡ done id
      → (u.parse_str s ≡ some id) ⊎ IsTheOnly sent id
  unfolding resolve_id pure
  resolve_id-IsTheOnly u sent id h = by_parse (u.parse_str s) h
    where
      by_parse :
          (p : Option ConnectionId)
          → (parsed_or_named t s p sent).0 ≡ done id
          → (p ≡ some id) ⊎ IsTheOnly sent id
      by_parse (some i) k = inl (cc)
      by_parse none k = inr (named-IsTheOnly sent id k)
