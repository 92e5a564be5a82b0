-- ===== src/PowerPorts/Overlap.antt =====
-- What a power port shows when its request is answered, and when another was sent before.
use jazzhands.Prelude.{
  str_eq, if◌then◌else◌, ℕ, ◌≡◌, ◌≢◌, refl, sym, ap, ◌∙◌, String, Option, none, some, List, [], ◌∷◌,
  get_elem?, modify, get_elem?-modify_self, get_elem?-modify_ne, ◌⊎◌, inl, inr, Bool-cases, ◌==◌,
  some_inj, arith,
}
use jazzhands.PowerPorts.Requests.{
  PowerPort, PowerRequest, PowerPage, chosen, power_url, show_power_ports, with_html, fill_box,
  update_power_port, change_power_state, run_power,
}

show_power_step :
    (i : ℕ) (interface : String) (p : PowerPage) (f : PowerPort)
    → get_elem? p.ports i ≡ some f
    → show_power_ports i interface p ≡ record {
      ports = modify chosen i p.ports;
      box = some i;
      requests = record { url = power_url f interface; ready_state = 1 } ∷ p.requests;
    }
unfolding show_power_ports
show_power_step i interface p f h = rw (h, show_power_ports) refl

module _ (server : String → String) where
  -- The box waits for the port at `j` or for none.
  Waits : ℕ → PowerPage → Type 0
  Waits j p = (p.box ≡ none) ⊎ (p.box ≡ some j)

  fill_box-kept :
      (i j : ℕ) (o : Option ℕ) (url : String) (p : PowerPage)
      → j ≢ i
      → (o ≡ none) ⊎ (o ≡ some j)
      → p.box ≡ o
      → Waits j (fill_box server o url p)
        × (get_elem? (fill_box server o url p).ports i ≡ get_elem? p.ports i)
  unfolding fill_box Waits
  fill_box-kept i j none url p ne h e = (inl e, refl)
  fill_box-kept i j (some n) url p ne (inl h) e = absurd (ground arith)
  fill_box-kept i j (some n) url p ne (inr h) e = (
    inl refl,
    get_elem?-modify_ne (with_html (server url)) n i p.ports (λ q. ne (sym (some_inj n j h) ∙ q)),
  )

  update-kept :
      (i j : ℕ) (g : Option PowerRequest) (p : PowerPage)
      → j ≢ i
      → Waits j p
      → Waits j (update_power_port server g p)
        × (get_elem? (update_power_port server g p).ports i ≡ get_elem? p.ports i)
  unfolding update_power_port Waits
  update-kept i j none p ne h = (h, refl)
  update-kept i j (some g) p ne h = elim (Bool-cases (g.ready_state == 4)) [
    | inl t ↦ rw t (fill_box-kept i j p.box g.url p ne h refl)
    | inr n ↦ rw n (h, refl)
  ]

  run-kept :
      (i j : ℕ) (es : List (ℕ × ℕ)) (p : PowerPage)
      → j ≢ i
      → Waits j p
      → get_elem? (run_power server es p).ports i ≡ get_elem? p.ports i
  unfolding run_power change_power_state Waits
  run-kept i j [] p ne h = refl
  run-kept i j (e ∷ es) p ne h =
      let rs = modify (λ r. record r { ready_state = e.1 }) e.0 p.requests in
      let kept = update-kept i j (get_elem? rs 0) (record p { requests = rs }) ne h in
      run-kept i j es (update_power_port server (get_elem? rs 0) (record p { requests = rs })) ne
        kept.0
      ∙ kept.1

  earlier_port :
      (i j : ℕ) (interface_i interface_j : String) (p : PowerPage) (f g : PowerPort)
      (es : List (ℕ × ℕ))
      → j ≢ i
      → get_elem? p.ports i ≡ some f
      → get_elem? p.ports j ≡ some g
      → get_elem?
          (run_power server es
            (show_power_ports j interface_j (show_power_ports i interface_i p))).ports
          i
        ≡ some (chosen f)
  unfolding Waits
  earlier_port i j interface_i interface_j p f g es ne h k =
      let first = modify chosen i p.ports in
      let p1 : PowerPage = record {
        ports = first;
        box = some i;
        requests = record { url = power_url f interface_i; ready_state = 1 } ∷ p.requests;
      } in
      let at_j = get_elem?-modify_ne chosen i j p.ports (λ e. ne (sym e)) ∙ k in
      let shown =
        ap (show_power_ports j interface_j) (show_power_step i interface_i p f h)
        ∙ show_power_step j interface_j p1 g at_j in
      ap (λ q. get_elem? (run_power server es q).ports i) shown
      ∙ run-kept i j es
          (record {
            ports = modify chosen j first;
            box = some j;
            requests = record { url = power_url g interface_j; ready_state = 1 } ∷ p1.requests;
          })
          ne (inr refl)
      ∙ get_elem?-modify_ne chosen j i first ne
      ∙ get_elem?-modify_self chosen i p.ports h

  answered_port :
      (i : ℕ) (interface : String) (p : PowerPage) (f : PowerPort)
      → get_elem? p.ports i ≡ some f
      → get_elem?
          (run_power server ((0, 2) ∷ (0, 3) ∷ (0, 4) ∷ []) (show_power_ports i interface p)).ports
          i
        ≡ some (with_html (server (power_url f interface)) (chosen f))
  unfolding run_power change_power_state update_power_port fill_box modify
  answered_port i interface p f h =
      ap (λ q. get_elem? (run_power server ((0, 2) ∷ (0, 3) ∷ (0, 4) ∷ []) q).ports i)
        (show_power_step i interface p f h)
      ∙ get_elem?-modify_self (with_html (server (power_url f interface))) i
          (modify chosen i p.ports) (get_elem?-modify_self chosen i p.ports h)

  -- Where the list of a second port is asked for before that of the first is there, then, in
  -- whatever order the requests change their states, the first port keeps the content of its box.
  pub earlier_box_kept :
      (i j : ℕ) (interface_i interface_j : String) (p : PowerPage) (f g : PowerPort)
      (es : List (ℕ × ℕ))
      → j ≢ i
      → get_elem? p.ports i ≡ some f
      → get_elem? p.ports j ≡ some g
      → (q : PowerPort) × (get_elem?
            (run_power server es
              (show_power_ports j interface_j (show_power_ports i interface_i p))).ports
            i
          ≡ some q)
        × (q.box_html ≡ f.box_html)
  unfolding chosen
  earlier_box_kept i j interface_i interface_j p f g es ne h k =
      (chosen f, earlier_port i j interface_i interface_j p f g es ne h k, refl)

  -- Where the request for a port is answered before another is sent, its box has the answer to
  -- its request, and the identifier of the device is kept, or cleared where the device has no name.
  pub power_answered :
      (i : ℕ) (interface : String) (p : PowerPage) (f : PowerPort)
      → get_elem? p.ports i ≡ some f
      → (q : PowerPort) × (get_elem?
            (run_power server
              ((0, 2) ∷ (0, 3) ∷ (0, 4) ∷ [])
              (show_power_ports i interface p)).ports
            i
          ≡ some q)
        × (q.box_html ≡ server (power_url f interface))
        × (q.device_id ≡ (if str_eq f.device_name "" then "" else f.device_id))
  unfolding chosen with_html
  power_answered i interface p f h = (
    with_html (server (power_url f interface)) (chosen f),
    answered_port i interface p f h,
    refl,
    refl,
  )
