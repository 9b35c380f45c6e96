-- ===== src/Metrics.antt =====
-- internal/metrics/ports.go: the open ports, from the socket tables of /proc and from the list of
-- listening processes. The text form of an address, `String` of net.IP, and `net.ParseIP` are
-- parameters on its bytes, four or sixteen; the list of processes comes from package portlist.
pub mod Address
pub mod Ports
