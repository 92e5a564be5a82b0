-- ===== src/PhysicalPorts/Answers.antt =====
-- What a port shows when requests are answered one by one, and when two of them overlap.
use jazzhands.Prelude.{
  arith, str_eq, if◌then◌else◌, ℕ, ◌≡◌, ◌≢◌, refl, sym, ap, ◌∙◌, Bool, true, false, String, Option,
  some, List, ◌∷◌, get_elem?, modify, get_elem?-modify_self, get_elem?-modify_ne,
}
use jazzhands.PhysicalPorts.Requests.{
  chosen_id, cleanup, Port, Request, Page, ports_url, updating, show_physical_ports, filled,
  on_change, change_state, answered,
}

-- The request that is sent for a port.
abbrev sent : ℕ → Option String → Option String → String → Port → ℕ → Bool → Request
sent i type side port_id f s b = record {
  port = i;
  url = ports_url type side port_id f;
  ready_state = s;
  spinner = b;
}

show_step :
    (i : ℕ) (type side : Option String) (port_id : String) (p : Page) (f : Port)
    → get_elem? p.ports i ≡ some f
    → show_physical_ports i type side port_id p ≡ record {
      ports = modify (updating port_id) i p.ports;
      requests = sent i type side port_id f 1 true ∷ p.requests;
    }
unfolding show_physical_ports
show_step i type side port_id p f h = rw (h, show_physical_ports) refl

module _ (server : String → String) where
  answered_first :
      (i : ℕ) (u : String) (ports : List Port) (rs : List Request)
      → answered server 0 (record {
        ports = ports;
        requests = record { port = i; url = u; ready_state = 1; spinner = true } ∷ rs;
      })
        ≡ record {
          ports = modify (filled (server u)) i ports;
          requests = record { port = i; url = u; ready_state = 4; spinner = false } ∷ rs;
        }
  unfolding answered change_state on_change modify
  answered_first i u ports rs = refl

  -- The answer to the second last request is not noticed while the last one is under way.
  answered_second :
      (ports : List Port) (q r : Request) (rs : List Request)
      → q.ready_state ≡ 1
      → answered server 1 (record { ports = ports; requests = q ∷ r ∷ rs })
        ≡ record { ports = ports; requests = q ∷ record r { ready_state = 4 } ∷ rs }
  unfolding answered change_state on_change modify
  answered_second ports q r rs h = rw h refl

  answered_port :
      (i : ℕ) (type side : Option String) (port_id : String) (p : Page) (f : Port)
      → get_elem? p.ports i ≡ some f
      → (get_elem? (answered server 0 (show_physical_ports i type side port_id p)).ports i
          ≡ some (filled (server (ports_url type side port_id f)) (updating port_id f)))
        × ((answered server 0 (show_physical_ports i type side port_id p)).requests
            ≡ sent i type side port_id f 4 false ∷ p.requests)
  answered_port i type side port_id p f h =
      let u = ports_url type side port_id f in
      let e =
        ap (answered server 0) (show_step i type side port_id p f h)
        ∙ answered_first i u (modify (updating port_id) i p.ports) p.requests in
      (
        ap (λ q. get_elem? q.ports i) e
            ∙ get_elem?-modify_self (filled (server u)) i (modify (updating port_id) i p.ports)
                (get_elem?-modify_self (updating port_id) i p.ports h),
        ap (λ q. q.requests) e,
      )

  updating-id : (port_id : String) (f : Port) → (updating port_id f).device_id ≡ chosen_id f
  unfolding updating cleanup
  updating-id port_id f = ground arith

  updating-visible : (port_id : String) (f : Port) → (updating port_id f).box_visible ≡ false
  unfolding updating cleanup
  updating-visible port_id f = ground arith

  -- Where the request for a port is answered before another is sent, the box of the port is shown
  -- with the server's answer to its request, the spinning wheel is gone, and the identifier of the
  -- device is kept, or cleared where the device has no name.
  pub answered_alone :
      (i : ℕ) (type side : Option String) (port_id : String) (p : Page) (f : Port)
      → get_elem? p.ports i ≡ some f
      → ((g : Port) × (get_elem?
              (answered server 0 (show_physical_ports i type side port_id p)).ports
              i
            ≡ some g)
          × (g.box_visible ≡ true)
          × (g.box_html ≡ server (ports_url type side port_id f))
          × (g.device_id ≡ (if str_eq f.device_name "" then "" else f.device_id)))
        × ((answered server 0 (show_physical_ports i type side port_id p)).requests
            ≡ record {
              port = i;
              url = ports_url type side port_id f;
              ready_state = 4;
              spinner = false;
            }
              ∷ p.requests)
  unfolding filled
  answered_alone i type side port_id p f h =
      let (at_i, rs) = answered_port i type side port_id p f h in
      (
        (
          filled (server (ports_url type side port_id f)) (updating port_id f),
          at_i,
          refl,
          refl,
          updating-id port_id f,
        ),
        rs,
      )

  overlap_kept :
      (i j : ℕ) (type side : Option String) (id_i id_j : String) (p : Page) (f g : Port)
      → i ≢ j
      → get_elem? p.ports i ≡ some f
      → get_elem? p.ports j ≡ some g
      → get_elem?
          (answered server 0 (
            answered server 1 (
              show_physical_ports j type side id_j (show_physical_ports i type side id_i p)))).ports
          i
        ≡ some (updating id_i f)
  overlap_kept i j type side id_i id_j p f g ne h k =
      let first = modify (updating id_i) i p.ports in
      let p1 : Page = record {
        ports = first;
        requests = sent i type side id_i f 1 true ∷ p.requests;
      } in
      let at_j = get_elem?-modify_ne (updating id_i) i j p.ports ne ∙ k in
      let second = modify (updating id_j) j first in
      let u = ports_url type side id_j g in
      let shown =
        ap (show_physical_ports j type side id_j) (show_step i type side id_i p f h)
        ∙ show_step j type side id_j p1 g at_j in
      let whole =
        ap (λ q. answered server 0 (answered server 1 q)) shown
        ∙ ap (answered server 0) (
            answered_second second (sent j type side id_j g 1 true) (sent i type side id_i f 1 true)
              p.requests refl)
        ∙ answered_first j u second (sent i type side id_i f 4 true ∷ p.requests) in
      let ne' : j ≢ i = λ e. ne (sym e) in
      ap (λ q. get_elem? q.ports i) whole
      ∙ get_elem?-modify_ne (filled (server u)) j i second ne'
      ∙ get_elem?-modify_ne (updating id_j) j i first ne'
      ∙ get_elem?-modify_self (updating id_i) i p.ports h

  -- Where a request for a second port is sent before the first is answered, and the answers come
  -- in order, the box of the first port stays hidden.
  pub overlap_hidden :
      (i j : ℕ) (type side : Option String) (id_i id_j : String) (p : Page) (f g : Port)
      → i ≢ j
      → get_elem? p.ports i ≡ some f
      → get_elem? p.ports j ≡ some g
      → (q : Port) × (get_elem?
            (answered server 0 (
              answered server 1 (
                show_physical_ports j type side id_j
                  (show_physical_ports i type side id_i p)))).ports
            i
          ≡ some q)
        × (q.box_visible ≡ false)
  overlap_hidden i j type side id_i id_j p f g ne h k =
      (updating id_i f, overlap_kept i j type side id_i id_j p f g ne h k, updating-visible id_i f)
