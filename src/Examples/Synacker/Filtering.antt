-- ===== src/Examples/Synacker/Filtering.antt =====
-- Which packets the filter takes.
use xdpsock.Prelude.{ℕ, ◌≡◌, ◌↔◌, refl, Bool, true, ◌&&◌, Option, none, some, List, ==_iff, arith}
use xdpsock.Examples.Wire.{Ipv4, Tcp, InternetSlice, TransportSlice, SlicedPacket, same_bytes_iff}
use xdpsock.Examples.Synacker.{
  Filter, ip_match, transport_match, match_src_ip, match_dest_ip, match_src_port, match_dest_port,
  filter,
}

-- What is asked for, if anything is, is what there is.
abbrev pub Fits : {A : Type 0} → Option A → A → Type 0
Fits none x = Unit {0}
Fits (some y) x = x ≡ y

-- A given destination port takes the place of the test on the source port.
abbrev pub PortsFit : Filter → Tcp → Type 0
PortsFit self h =
    Fits self.dest_port h.destination_port
    × (self.dest_port ≡ none → Fits self.src_port h.source_port)

abbrev pub IpFits : Filter → Option InternetSlice → Type 0
IpFits self (some (InternetSlice.ipv4 h)) =
    Fits self.src_ip h.source × Fits self.dest_ip h.destination
IpFits self (some InternetSlice.ipv6) = Unit {0}
IpFits self none = Unit {0}

abbrev pub TransportFits : Filter → Option TransportSlice → Type 0
TransportFits self (some (TransportSlice.tcp h)) = PortsFit self h
TransportFits self (some (TransportSlice.udp h)) = Unit {0}
TransportFits self none = Unit {0}

both : {A B : Bool} → (A && B ≡ true) ↔ ((A ≡ true) × (B ≡ true))
both {A} {B} = (λ h. (ground arith, ground arith), λ (a, b). rw (a, b) refl)

ips_lem :
    (src dest : Option (List ℕ)) (h : Ipv4)
    → (match_dest_ip dest h (match_src_ip src h) ≡ true)
      ↔ (Fits src h.source × Fits dest h.destination)
ips_lem none none h = (λ e. (tt, tt), λ e. refl)
ips_lem (some src) none h =
    let at = same_bytes_iff h.source src in (λ e. (at.0 e, tt), λ (s, d). at.1 s)
ips_lem none (some dest) h =
    let at = same_bytes_iff h.destination dest in (λ e. (tt, at.0 e), λ (s, d). at.1 d)
ips_lem (some src) (some dest) h =
    let from = same_bytes_iff h.source src in
    let to = same_bytes_iff h.destination dest in
    (λ e. (from.0 (both.0 e).0, to.0 (both.0 e).1), λ (s, d). both.1 (from.1 s, to.1 d))

ports_lem :
    (src dest : Option ℕ) (h : Tcp)
    → (match_dest_port dest h (match_src_port src h) ≡ true)
      ↔ (Fits dest h.destination_port × (dest ≡ none → Fits src h.source_port))
ports_lem none none h = (λ e. (tt, λ q. tt), λ e. refl)
ports_lem (some src) none h =
    let at = ==_iff h.source_port src in (λ e. (tt, λ q. at.0 e), λ (d, s). at.1 (s refl))
ports_lem src (some dest) h =
    let at = ==_iff h.destination_port dest in (λ e. (at.0 e, λ q. absurd cc), λ (d, s). at.1 d)

ip_lem : (self : Filter) (ip : Option InternetSlice) → (ip_match self ip ≡ true) ↔ IpFits self ip
ip_lem self none = (λ e. tt, λ e. refl)
ip_lem self (some InternetSlice.ipv6) = (λ e. tt, λ e. refl)
ip_lem self (some (InternetSlice.ipv4 h)) = ips_lem self.src_ip self.dest_ip h

transport_lem :
    (self : Filter) (transport : Option TransportSlice)
    → (transport_match self transport ≡ true) ↔ TransportFits self transport
transport_lem self none = (λ e. tt, λ e. refl)
transport_lem self (some (TransportSlice.udp h)) = (λ e. tt, λ e. refl)
transport_lem self (some (TransportSlice.tcp h)) = ports_lem self.src_port self.dest_port h

-- The filter takes a packet exactly if, where it is an IPv4 packet, the given addresses are its
-- own, and, where it is a TCP packet, a given destination port is its own or, if none is given, a
-- given source port is. So a packet that is neither passes every filter, and a given source port is
-- not looked at beside a destination port.
pub filter_iff :
    (self : Filter) (pkt : SlicedPacket)
    → (filter self pkt ≡ true) ↔ (IpFits self pkt.ip × TransportFits self pkt.transport)
unfolding filter
filter_iff self pkt =
    let ip = ip_lem self pkt.ip in
    let transport = transport_lem self pkt.transport in
    (λ e. (ip.0 (both.0 e).0, transport.0 (both.0 e).1), λ (i, t). both.1 (ip.1 i, transport.1 t))
