-- ===== src/P2p/Startup.antt =====
-- p2p.go: starting the node, and starting it again after a failure.
use node_decent_system.Prelude.{
  ◌+◌, ◌≡◌, ◌≢◌, refl, sym, ap, subst, ◌∙◌, true, false, none, some, ◌++◌, arith, Result, ok, err,
  Error, lit, decimal,
}
use node_decent_system.P2p.{
  LibP2p, Network, P2pNode, Started, init, init_at, fails, start, serve, after_host,
  after_gossip_sub, after_join, after_subscribe, topic_name,
}

module _ (lib : LibP2p) {Tx : Type 0} where
  -- A node with a host is left alone by `Init`.
  init_again :
      (net : Network lib) (p : P2pNode lib Tx) (h : lib.Host)
      → p.host ≡ some h
      → init lib net p ≡ record { node = p; listens = false; error = none }
  unfolding init init_at
  init_again net p h e = ap (init_at lib net p) e

  start_again :
      (net : Network lib) (p : P2pNode lib Tx) (h : lib.Host)
      → p.host ≡ some h
      → start lib net p ≡ record {
        node = record p { server = some (lit ":" ++ decimal p.port) };
        listens = false;
        error = none;
      }
  unfolding start serve
  start_again net p h e = rw (init_again net p h e) refl

  -- What an `Init` leaves behind that has created its host.
  record Left (h : lib.Host) (s : Started lib Tx) : Type 0 where
    pub hosted : s.node.host ≡ some h
    pub failed_early : s.error ≢ none → (s.node.sub ≡ none) × (s.listens ≡ false)
    pub complete :
        s.error ≡ none
        → (s.listens ≡ true)
          × (t : lib.Topic) × (s.node.topic ≡ some t)
          × (u : lib.Subscription) × (s.node.sub ≡ some u)

  after_subscribe-Left :
      (p : P2pNode lib Tx) (h : lib.Host) (t : lib.Topic) (r : Result Error lib.Subscription)
      → p.host ≡ some h
      → p.sub ≡ none
      → p.topic ≡ some t
      → Left h (after_subscribe lib p r)
  unfolding after_subscribe fails
  after_subscribe-Left p h t (err e) hosted unsubscribed joined = record {
    hosted = hosted;
    failed_early = λ f. (unsubscribed, refl);
    complete = λ c. absurd (ground arith);
  }
  after_subscribe-Left p h t (ok u) hosted unsubscribed joined = record {
    hosted = hosted;
    failed_early = λ f. absurd (f refl);
    complete = λ c. (refl, t, joined, u, refl);
  }

  after_join-Left :
      (net : Network lib) (p : P2pNode lib Tx) (h : lib.Host) (r : Result Error lib.Topic)
      → p.host ≡ some h
      → p.sub ≡ none
      → Left h (after_join lib net p r)
  unfolding after_join fails
  after_join-Left net p h (err e) hosted unsubscribed = record {
    hosted = hosted;
    failed_early = λ f. (unsubscribed, refl);
    complete = λ c. absurd (ground arith);
  }
  after_join-Left net p h (ok t) hosted unsubscribed =
      after_subscribe-Left (record p { topic = some t }) h t (net.subscribe t) hosted unsubscribed
        refl

  after_gossip_sub-Left :
      (net : Network lib) (p : P2pNode lib Tx) (h : lib.Host) (r : Result Error lib.PubSub)
      → p.host ≡ some h
      → p.sub ≡ none
      → Left h (after_gossip_sub lib net p r)
  unfolding after_gossip_sub fails
  after_gossip_sub-Left net p h (err e) hosted unsubscribed = record {
    hosted = hosted;
    failed_early = λ f. (unsubscribed, refl);
    complete = λ c. absurd (ground arith);
  }
  after_gossip_sub-Left net p h (ok ps) hosted unsubscribed =
      after_join-Left net (record p { pubsub = some ps }) h (net.join ps topic_name) hosted
        unsubscribed

  init-Left :
      (net : Network lib) (p : P2pNode lib Tx) (h : lib.Host)
      → p.host ≡ none
      → p.sub ≡ none
      → net.new_host (p.port + 1000) ≡ ok h
      → Left h (init lib net p)
  unfolding init init_at after_host
  init-Left net p h no_host no_sub made =
      subst (Left h) (sym (ap (init_at lib net p) no_host ∙ ap (after_host lib net p) made)) (
        after_gossip_sub-Left net (record p { host = some h }) h (net.new_gossip_sub h) refl no_sub)

  -- The start by the runtime, an `Init` and then a `Start`: if the first reports no error, the second
  -- succeeds, one goroutine listens to the gossip, and the node has its topic, its subscription and
  -- its server.
  pub boots :
      (net later : Network lib) (p : P2pNode lib Tx) (h : lib.Host)
      → p.host ≡ none
      → p.sub ≡ none
      → net.new_host (p.port + 1000) ≡ ok h
      → (init lib net p).error ≡ none
      → let s = start lib later (init lib net p).node in
        (s.error ≡ none)
        × ((init lib net p).listens ≡ true)
        × (s.listens ≡ false)
        × (s.node.server ≡ some (lit ":" ++ decimal (init lib net p).node.port))
        × ((t : lib.Topic) × (s.node.topic ≡ some t)
            × (u : lib.Subscription) × (s.node.sub ≡ some u))
  boots net later p h no_host no_sub made fine =
      let left = init-Left net p h no_host no_sub made in
      let (listens, t, joined, u, subscribed) = left.complete fine in
      rw (start_again later (init lib net p).node h left.hosted)
        (refl, listens, refl, refl, (t, joined, u, subscribed))

  -- A node whose `Init` has failed after it created the host cannot recover: `Start`, on whatever
  -- network, then reports success, but the node has no subscription and no goroutine listens.
  pub failed_init_is_final :
      (net later : Network lib) (p : P2pNode lib Tx) (h : lib.Host)
      → p.host ≡ none
      → p.sub ≡ none
      → net.new_host (p.port + 1000) ≡ ok h
      → (init lib net p).error ≢ none
      → let s = start lib later (init lib net p).node in
        (s.error ≡ none)
        × ((init lib net p).listens ≡ false)
        × (s.listens ≡ false)
        × (s.node.sub ≡ none)
  failed_init_is_final net later p h no_host no_sub made failed =
      let left = init-Left net p h no_host no_sub made in
      let (no_sub', deaf) = left.failed_early failed in
      rw (start_again later (init lib net p).node h left.hosted) (refl, deaf, refl, no_sub')
