-- ===== src/ReadCache/Group/Preserve.antt =====
-- Each change that an action can make to a group keeps the invariant.
use csar_core.Prelude.{
  ℕ, suc, ◌+◌, ◌-◌, ◌<◌, String, ◌≡◌, refl, true, false, not, ◌&&◌, Option, none, some, List, [],
  ◌∷◌, ◌++◌, arith, eq_iff, string_eq, ◌==◌, nat_eq, length, get_elem?, set, All, All-append,
  All-mono, All-get_elem?, All-set, All-pair,
}
use csar_core.Prelude.Counts.{count-append, count-set, All-count}
use csar_core.Prelude.Dict
use csar_core.Prelude.Dict.{
  lookup, insert, delete, lookup-insert, lookup-delete, lookup-insert_self, length-insert-new,
  length-delete-le, insert-Unique, delete-Unique,
}
use csar_core.ReadCache.Group.{Error, Group, Ticket, update, System, in_flight}
use csar_core.ReadCache.Group.Invariant.{attached, Inv}

module _ {T : Type 0} (z : T) (g : Group T) (ts : List Ticket) where
  abbrev pub here : System T
  here = record { group = g; tickets = ts }

  abbrev pub joined : String → ℕ → System T
  joined key p = record {
    group = record g {
      heap = update g.heap p (record (g.heap p) { followers = (g.heap p).followers + 1 });
    };
    tickets = ts ++ (record { key = key; call = p; leader = false; released = false }) ∷ [];
  }

  pub joined-Inv :
      (key : String) (p : ℕ)
      → lookup key g.calls ≡ some p
      → (g.heap p).followers < g.limits.max_followers
      → Inv here
      → Inv (joined key p)
  joined-Inv key p found room v = record {
    unique = v.unique;
    live = λ k q h. ground (arith, v.live k q h);
    apart = v.apart;
    keys_bounded = v.keys_bounded;
    followers_exact = λ q. ground (
      arith,
      v.followers_exact q,
      v.followers_exact p,
      count-append (λ t. not t.leader && not t.released && t.call == q) ts
          (record { key = key; call = p; leader = false; released = false }),
    );
    followers_bounded = λ q. ground (arith, v.followers_bounded q);
    one_leader = λ k. ground (
      arith,
      v.one_leader k,
      count-append (λ t. in_flight t && t.key == k) ts
          (record { key = key; call = p; leader = false; released = false }),
    );
    current = All-append _ ts _ v.current ((λ e. cc), tt);
    allocated = All-append _ ts _ v.allocated ((v.live key p found).0, tt);
  }

  abbrev pub lead_ticket : String → Ticket
  lead_ticket key = record { key = key; call = g.next; leader = true; released = false }

  abbrev pub led : String → System T
  led key = record {
    group = record g {
      calls = insert key g.next g.calls;
      heap = update g.heap g.next (record { done = false; value = z; err = none; followers = 0 });
      next = suc g.next;
    };
    tickets = ts ++ lead_ticket key ∷ [];
  }

  unattached : (q : ℕ) (us : List Ticket) → All (λ t. t.call < q) us → attached q us ≡ 0
  unattached q [] h = refl
  unattached q (t ∷ us) h = ground (arith, unattached q us h.1)

  pub led-Inv :
      (key : String)
      → lookup key g.calls ≡ none
      → length g.calls < g.limits.max_keys
      → Inv here
      → Inv (led key)
  led-Inv key free room v = record {
    unique = Dict.insert-Unique key g.next g.calls v.unique;
    live = λ k q h. ground (arith, v.live k q, Dict.lookup-insert key k g.next g.calls);
    apart = λ k j q h h'. ground (
      arith,
      v.apart k j q,
      v.live k q,
      v.live j q,
      eq_iff key k,
      eq_iff key j,
      Dict.lookup-insert key k g.next g.calls,
      Dict.lookup-insert key j g.next g.calls,
    );
    keys_bounded = omega (arith, Dict.length-insert-new key g.next g.calls free);
    followers_exact = λ q. ground (
      arith,
      v.followers_exact q,
      unattached g.next ts v.allocated,
      count-append (λ t. not t.leader && not t.released && t.call == q) ts (lead_ticket key),
    );
    followers_bounded = λ q. ground (arith, v.followers_bounded q);
    one_leader = λ k. ground (
      arith,
      v.one_leader k,
      eq_iff key k,
      Dict.lookup-insert key k g.next g.calls,
      count-append (λ t. in_flight t && t.key == k) ts (lead_ticket key),
    );
    current =
        All-append _ ts _
          (All-mono _ _ ts
            (λ t h e.
              ground (arith, h e, eq_iff key t.key, Dict.lookup-insert key t.key g.next g.calls))
            v.current)
          ((λ e. Dict.lookup-insert_self key g.next g.calls), tt);
    allocated =
        All-append _ ts _ (All-mono _ _ ts (λ t h. omega arith) v.allocated) (omega arith, tt);
  }

  abbrev pub left : ℕ → Ticket → System T
  left i t = record {
    group = record g {
      heap =
          update g.heap t.call
            (record (g.heap t.call) { followers = (g.heap t.call).followers - 1 });
    };
    tickets = set ts i (record t { released = true });
  }

  pub left-Inv :
      (i : ℕ) (t : Ticket)
      → get_elem? ts i ≡ some t
      → t.leader ≡ false
      → t.released ≡ false
      → Inv here
      → Inv (left i t)
  left-Inv i t at lf rf v = record {
    unique = v.unique;
    live = λ k q h. ground (arith, v.live k q h);
    apart = v.apart;
    keys_bounded = v.keys_bounded;
    followers_exact = λ q. ground (
      arith,
      v.followers_exact q,
      count-set (λ t. not t.leader && not t.released && t.call == q) ts i t
          (record t { released = true }) at,
    );
    followers_bounded = λ q. ground (arith, v.followers_bounded q);
    one_leader = λ k. ground (
      arith,
      v.one_leader k,
      count-set (λ t. in_flight t && t.key == k) ts i t (record t { released = true }) at,
    );
    current = All-set _ ts i _ (λ e. ground arith) v.current;
    allocated = All-set _ ts i _ (All-get_elem? _ ts i t v.allocated at) v.allocated;
  }

  abbrev pub closed : ℕ → Ticket → T → Option Error → System T
  closed i t w e = record {
    group = record g {
      calls = delete t.key g.calls;
      heap = update g.heap t.call (record (g.heap t.call) { done = true; value = w; err = e });
    };
    tickets = set ts i (record t { released = true });
  }

  pub closed-Inv :
      (i : ℕ) (t : Ticket) (w : T) (e : Option Error)
      → get_elem? ts i ≡ some t
      → t.leader ≡ true
      → t.released ≡ false
      → lookup t.key g.calls ≡ some t.call
      → Inv here
      → Inv (closed i t w e)
  closed-Inv i t w e at lt rf found v = record {
    unique = Dict.delete-Unique t.key g.calls v.unique;
    live = λ k q h.
        ground (
          arith,
          v.live k q,
          v.apart k t.key q,
          eq_iff t.key k,
          Dict.lookup-delete t.key k g.calls,
        );
    apart = λ k j q h h'. ground (
      arith,
      v.apart k j q,
      Dict.lookup-delete t.key k g.calls,
      Dict.lookup-delete t.key j g.calls,
    );
    keys_bounded = omega (arith, v.keys_bounded, Dict.length-delete-le t.key g.calls);
    followers_exact = λ q. ground (
      arith,
      v.followers_exact q,
      count-set (λ t. not t.leader && not t.released && t.call == q) ts i t
          (record t { released = true }) at,
    );
    followers_bounded = λ q. ground (arith, v.followers_bounded q);
    one_leader = λ k. ground (
      arith,
      v.one_leader k,
      eq_iff t.key k,
      Dict.lookup-delete t.key k g.calls,
      count-set (λ t. in_flight t && t.key == k) ts i t (record t { released = true }) at,
    );
    current =
        All-pair _ _ _ (set ts i (record t { released = true }))
          (λ u h k e. ground (
            arith,
            h e,
            eq_iff t.key u.key,
            eq_iff u.key t.key,
            Dict.lookup-delete t.key u.key g.calls,
          ))
          (All-set _ ts i _ (λ e. ground arith) v.current)
          (All-count (λ u. in_flight u && u.key == t.key) _
            (ground (
              arith,
              v.one_leader t.key,
              eq_iff t.key t.key,
              count-set (λ u. in_flight u && u.key == t.key) ts i t (record t { released = true })
                  at,
            )));
    allocated = All-set _ ts i _ (All-get_elem? _ ts i t v.allocated at) v.allocated;
  }
