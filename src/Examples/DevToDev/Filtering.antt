-- ===== src/Examples/DevToDev/Filtering.antt =====
-- Which packets `filter_pkt` takes.
use xdpsock.Prelude.{ap, ◌∙◌, ◌≡◌, ◌↔◌, refl, true, Option, none, some, ==_iff, arith}
use xdpsock.Examples.Wire.{Ipv4, Udp, InternetSlice, TransportSlice, SlicedPacket, same_bytes_iff}
use xdpsock.Examples.DevToDev.{Filter, ip_match, transport_match, filter_pkt}

-- A UDP packet over IPv4 with the four addresses and ports of the filter.
pub record Matches (pkt : SlicedPacket) (filter : Filter) : Type 0 where
  pub header : Ipv4
  pub over_ip : pkt.ip ≡ some (InternetSlice.ipv4 header)
  pub from_ip : header.source ≡ filter.src_ip
  pub to_ip : header.destination ≡ filter.dest_ip
  pub datagram : Udp
  pub over_udp : pkt.transport ≡ some (TransportSlice.udp datagram)
  pub from_port : datagram.source_port ≡ filter.src_port
  pub to_port : datagram.destination_port ≡ filter.dest_port

ip_match_lem :
    (filter : Filter) (ip : Option InternetSlice)
    → (ip_match filter ip ≡ true) ↔ (
        (h : Ipv4) × (ip ≡ some (InternetSlice.ipv4 h))
        × (h.source ≡ filter.src_ip)
        × (h.destination ≡ filter.dest_ip))
ip_match_lem filter none = (λ h. cc, λ (h, e, from_ip, to_ip). cc)
ip_match_lem filter (some InternetSlice.ipv6) = (λ h. cc, λ (h, e, from_ip, to_ip). cc)
ip_match_lem filter (some (InternetSlice.ipv4 h)) =
    let source = same_bytes_iff h.source filter.src_ip in
    let destination = same_bytes_iff h.destination filter.dest_ip in
    (
      λ e. (h, refl, ground (arith, source), ground (arith, destination)),
      λ (h', e, from_ip, to_ip).
          let same : h ≡ h' = cc in
          rw
            (
              source.1 (ap (λ (x : Ipv4). x.source) same ∙ from_ip),
              destination.1 (ap (λ (x : Ipv4). x.destination) same ∙ to_ip),
            )
            refl,
    )

transport_match_lem :
    (filter : Filter) (transport : Option TransportSlice)
    → (transport_match filter transport ≡ true) ↔ (
        (h : Udp) × (transport ≡ some (TransportSlice.udp h))
        × (h.source_port ≡ filter.src_port)
        × (h.destination_port ≡ filter.dest_port))
transport_match_lem filter none = (λ h. cc, λ (h, e, from_port, to_port). cc)
transport_match_lem filter (some (TransportSlice.tcp h)) =
    (λ h. cc, λ (h, e, from_port, to_port). cc)
transport_match_lem filter (some (TransportSlice.udp h)) = (
  λ e. (h, refl, ground arith, ground arith),
  λ (h', e, from_port, to_port).
      let same : h ≡ h' = cc in
      let source =
        (==_iff h.source_port filter.src_port).1
          (ap (λ (x : Udp). x.source_port) same ∙ from_port) in
      let destination =
        (==_iff h.destination_port filter.dest_port).1
          (ap (λ (x : Udp). x.destination_port) same ∙ to_port) in
      rw (source, destination) refl,
)

-- `filter_pkt` takes exactly the UDP packets over IPv4 with the source and destination address and
-- the source and destination port of the filter.
pub filter_pkt_iff :
    (pkt : SlicedPacket) (filter : Filter) → (filter_pkt pkt filter ≡ true) ↔ Matches pkt filter
unfolding filter_pkt
filter_pkt_iff pkt filter = (forth, back)
  where
    forth : filter_pkt pkt filter ≡ true → Matches pkt filter
    forth h =
        let (header, over_ip, from_ip, to_ip) = (ip_match_lem filter pkt.ip).0 (ground arith) in
        let (datagram, over_udp, from_port, to_port) =
          (transport_match_lem filter pkt.transport).0 (ground arith) in
        record {
          header = header;
          over_ip = over_ip;
          from_ip = from_ip;
          to_ip = to_ip;
          datagram = datagram;
          over_udp = over_udp;
          from_port = from_port;
          to_port = to_port;
        }

    back : Matches pkt filter → filter_pkt pkt filter ≡ true
    back v =
        let ip = (ip_match_lem filter pkt.ip).1 (v.header, v.over_ip, v.from_ip, v.to_ip) in
        let transport =
          (transport_match_lem filter pkt.transport).1
            (v.datagram, v.over_udp, v.from_port, v.to_port) in
        rw (ip, transport) refl
