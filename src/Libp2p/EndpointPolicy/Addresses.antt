-- ===== src/Libp2p/EndpointPolicy/Addresses.antt =====
-- crates/resurrect-libp2p/src/endpoint_policy.rs: which IP addresses are accepted, by their ranges.
use rbp.Prelude.{
  ◌/◌, ◌%◌, ◌≡◌, ◌≢◌, ◌≤◌, ◌<◌, ◌↔◌, ◌⊎◌, inl, inr, refl, true, false, none, some, nat_eq, ◌&&◌,
  ◌==◌, arith, Bool-cases,
}
use rbp.Libp2p.EndpointPolicy.{
  EndpointPolicy, Ipv4Addr, Ipv6Addr, is_global_ipv4, is_global_ipv6, accept_ipv4, accept_ipv6,
  to_ipv4_mapped, v6_leading_zeros,
}

-- neither this network, private, shared, loopback, link-local, for documentation or benchmarks, nor
-- multicast and above
pub record IsGlobalIpv4 (ip : Ipv4Addr) : Type 0 where
  pub unicast : ip.a < 224
  pub this_network : ip.a ≢ 0
  pub loopback : ip.a ≢ 127
  pub private_ten : ip.a ≢ 10
  pub private_172 : ip.a ≡ 172 → ¬ ((16 ≤ ip.b) × (ip.b ≤ 31))
  pub private_192 : ip.a ≡ 192 → ip.b ≢ 168
  pub shared : ip.a ≡ 100 → ¬ ((64 ≤ ip.b) × (ip.b ≤ 127))
  pub link_local : ip.a ≡ 169 → ip.b ≢ 254
  pub benchmark : ip.a ≡ 198 → ¬ ((18 ≤ ip.b) × (ip.b ≤ 19))
  pub documentation_192 : ip.a ≡ 192 → ip.b ≡ 0 → ip.c ≢ 2
  pub documentation_198 : ip.a ≡ 198 → ip.b ≡ 51 → ip.c ≢ 100
  pub documentation_203 : ip.a ≡ 203 → ip.b ≡ 0 → ip.c ≢ 113

is_global_ipv4-IsGlobalIpv4 : (ip : Ipv4Addr) → is_global_ipv4 ip ≡ true → IsGlobalIpv4 ip
unfolding is_global_ipv4
is_global_ipv4-IsGlobalIpv4 ip h = record {
  unicast = ground arith;
  this_network = ground arith;
  loopback = ground arith;
  private_ten = ground arith;
  private_172 = λ x y. ground arith;
  private_192 = λ x y. ground arith;
  shared = λ x y. ground arith;
  link_local = λ x y. ground arith;
  benchmark = λ x y. ground arith;
  documentation_192 = λ x y z. ground arith;
  documentation_198 = λ x y z. ground arith;
  documentation_203 = λ x y z. ground arith;
}

IsGlobalIpv4-is_global_ipv4 : (ip : Ipv4Addr) → IsGlobalIpv4 ip → is_global_ipv4 ip ≡ true
unfolding is_global_ipv4
IsGlobalIpv4-is_global_ipv4 ip h = ground (
  arith, h.unicast, h.this_network, h.loopback, h.private_ten, h.private_172, h.private_192,
  h.shared, h.link_local, h.benchmark, h.documentation_192, h.documentation_198,
  h.documentation_203,
)

-- an IPv4 address in IPv6: `::ffff:a.b.c.d`
abbrev pub IsMapped : Ipv6Addr → Type 0
IsMapped ip = (ip.s0 ≡ 0) × (ip.s1 ≡ 0) × (ip.s2 ≡ 0) × (ip.s3 ≡ 0) × (ip.s4 ≡ 0) × (ip.s5 ≡ 65535)

-- the octets of the last two segments
abbrev pub embedded : Ipv6Addr → Ipv4Addr
embedded ip = record { a = ip.s6 / 256; b = ip.s6 % 256; c = ip.s7 / 256; d = ip.s7 % 256 }

-- the segments before the last are zero
abbrev pub IsLow : Ipv6Addr → Type 0
IsLow ip =
    (ip.s0 ≡ 0) × (ip.s1 ≡ 0) × (ip.s2 ≡ 0) × (ip.s3 ≡ 0) × (ip.s4 ≡ 0) × (ip.s5 ≡ 0) × (ip.s6 ≡ 0)

-- neither unspecified, loopback, multicast, unique local, link-local nor for documentation
pub record IsGlobalUnmapped (ip : Ipv6Addr) : Type 0 where
  pub unspecified : IsLow ip → ip.s7 ≢ 0
  pub loopback : IsLow ip → ip.s7 ≢ 1
  pub multicast : ¬ ((65280 ≤ ip.s0) × (ip.s0 ≤ 65535))
  pub unique_local : ¬ ((64512 ≤ ip.s0) × (ip.s0 ≤ 65023))
  pub link_local : ¬ ((65152 ≤ ip.s0) × (ip.s0 ≤ 65215))
  pub documentation : ip.s0 ≡ 8193 → ip.s1 ≢ 3512

-- a mapped address is global as the address it maps
abbrev pub IsGlobalIpv6 : Ipv6Addr → Type 0
IsGlobalIpv6 ip =
    (IsMapped ip × IsGlobalIpv4 (embedded ip)) ⊎ ((¬ IsMapped ip) × IsGlobalUnmapped ip)

to_ipv4_mapped-cases :
    (ip : Ipv6Addr)
    → (IsMapped ip × (to_ipv4_mapped ip ≡ some (embedded ip)))
      ⊎ ((¬ IsMapped ip) × (to_ipv4_mapped ip ≡ none))
to_ipv4_mapped-cases ip = elim (Bool-cases (v6_leading_zeros ip && ip.s5 == 65535)) [
  | inl mapped ↦ inl (ground arith, rw mapped refl)
  | inr not_mapped ↦ inr (λ h. ground (arith, h.0, h.1, h.2, h.3, h.4, h.5), rw not_mapped refl)
]

is_global_ipv6-IsGlobalIpv6 : (ip : Ipv6Addr) → is_global_ipv6 ip ≡ true → IsGlobalIpv6 ip
unfolding is_global_ipv6
is_global_ipv6-IsGlobalIpv6 ip h = elim (to_ipv4_mapped-cases ip) [
  | inl (mapped, it) ↦
      inl (mapped, is_global_ipv4-IsGlobalIpv4 (embedded ip) (rw (it, is_global_ipv6) at h))
  | inr (other, it) ↦
      let rest = rw (it, is_global_ipv6) at h in
      inr (
        other,
        record {
          unspecified = λ x y. ground (arith, rest, x, y);
          loopback = λ x y. ground (arith, rest, x, y);
          multicast = λ x. ground (arith, rest, x.0, x.1);
          unique_local = λ x. ground (arith, rest, x.0, x.1);
          link_local = λ x. ground (arith, rest, x.0, x.1);
          documentation = λ x y. ground (arith, rest, x, y);
        },
      )
]

IsGlobalIpv6-is_global_ipv6 : (ip : Ipv6Addr) → IsGlobalIpv6 ip → is_global_ipv6 ip ≡ true
unfolding is_global_ipv6
IsGlobalIpv6-is_global_ipv6 ip h = elim (to_ipv4_mapped-cases ip) [
  | inl (mapped, it) ↦ elim h [
    | inl (again, global) ↦
        rw (it, is_global_ipv6) (IsGlobalIpv4-is_global_ipv4 (embedded ip) global)
    | inr (other, global) ↦ absurd (other mapped)
  ]
  | inr (other, it) ↦ elim h [
    | inl (mapped, global) ↦ absurd (other mapped)
    | inr (other', global) ↦
        rw (it, is_global_ipv6)
          (ground (
            arith, global.unspecified, global.loopback, global.multicast, global.unique_local,
            global.link_local, global.documentation,
          ))
  ]
]

-- with private networks allowed: not 0.0.0.0 and not multicast
pub record IsPlainIpv4 (ip : Ipv4Addr) : Type 0 where
  pub unspecified : ¬ ((ip.a ≡ 0) × (ip.b ≡ 0) × (ip.c ≡ 0) × (ip.d ≡ 0))
  pub multicast : ¬ ((224 ≤ ip.a) × (ip.a ≤ 239))

pub record IsPlainIpv6 (ip : Ipv6Addr) : Type 0 where
  pub unspecified : IsLow ip → ip.s7 ≢ 0
  pub multicast : ¬ ((65280 ≤ ip.s0) × (ip.s0 ≤ 65535))

module _ (policy : EndpointPolicy) where
  abbrev pub AllowsIpv4 : Ipv4Addr → Type 0
  AllowsIpv4 ip =
      ((policy.allow_non_global ≡ true) × IsPlainIpv4 ip)
      ⊎ ((policy.allow_non_global ≡ false) × IsGlobalIpv4 ip)

  abbrev pub AllowsIpv6 : Ipv6Addr → Type 0
  AllowsIpv6 ip =
      ((policy.allow_non_global ≡ true) × IsPlainIpv6 ip)
      ⊎ ((policy.allow_non_global ≡ false) × IsGlobalIpv6 ip)

  pub accept_ipv4-Allows : (ip : Ipv4Addr) → (accept_ipv4 policy ip ≡ true) ↔ AllowsIpv4 ip
  unfolding accept_ipv4
  accept_ipv4-Allows ip = elim (Bool-cases policy.allow_non_global) [
    | inl all ↦ rw all (
      λ h. inl (
        refl,
        record {
          unspecified = λ x. ground (arith, h, x.0, x.1, x.2, x.3);
          multicast = λ x. ground (arith, h, x.0, x.1);
        },
      ),
      λ h. elim h [
        | inl (same, plain) ↦ ground (arith, plain.unspecified, plain.multicast)
        | inr (other, global) ↦ absurd (cc)
      ],
    )
    | inr few ↦ rw few (
      λ h. inr (refl, is_global_ipv4-IsGlobalIpv4 ip h),
      λ h. elim h [
        | inl (other, plain) ↦ absurd (cc)
        | inr (same, global) ↦ IsGlobalIpv4-is_global_ipv4 ip global
      ],
    )
  ]

  pub accept_ipv6-Allows : (ip : Ipv6Addr) → (accept_ipv6 policy ip ≡ true) ↔ AllowsIpv6 ip
  unfolding accept_ipv6
  accept_ipv6-Allows ip = elim (Bool-cases policy.allow_non_global) [
    | inl all ↦ rw all (
      λ h. inl (
        refl,
        record {
          unspecified = λ x y. ground (arith, h, x, y);
          multicast = λ x. ground (arith, h, x.0, x.1);
        },
      ),
      λ h. elim h [
        | inl (same, plain) ↦ ground (arith, plain.unspecified, plain.multicast)
        | inr (other, global) ↦ absurd (cc)
      ],
    )
    | inr few ↦ rw few (
      λ h. inr (refl, is_global_ipv6-IsGlobalIpv6 ip h),
      λ h. elim h [
        | inl (other, plain) ↦ absurd (cc)
        | inr (same, global) ↦ IsGlobalIpv6-is_global_ipv6 ip global
      ],
    )
  ]
