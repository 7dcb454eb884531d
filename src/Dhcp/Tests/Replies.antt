-- ===== src/Dhcp/Tests/Replies.antt =====
-- The timers of an ACK to the sample packet.
use ndhcpd.Common.{arith}
use ndhcpd.Bytes.{ipv4}
use ndhcpd.Config.{default_config}
use ndhcpd.Proto.Packet
use ndhcpd.Dhcp.Reply.{create_ack}
use ndhcpd.Dhcp.Replies.{Timers, create_ack-Timers}
use ndhcpd.Dhcp.Tests.{request_packet, lan}

create_ack-Timers_example :
    Timers 86400
      (Packet.to_bytes (create_ack request_packet (ipv4 192 168 1 100) lan default_config))
create_ack-Timers_example =
    create_ack-Timers request_packet (ipv4 192 168 1 100) lan default_config (omega arith)
      (omega arith)
      (record {
        gateway = omega arith;
        netmask = omega arith;
        dns_servers = (omega arith, tt);
        few_dns_servers = omega arith;
        domain_name = tt;
      })
      (omega arith)
